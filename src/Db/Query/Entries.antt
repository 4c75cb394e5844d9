-- ===== src/Db/Query/Entries.antt =====
-- db/sqlc/entry.sql.go. `entries` has foreign keys to accounts and, where it is set, to transfers.
pub mod Insert
use go_bank.Common.{
  ℕ, ◌+◌, Bool, true, false, ◌&&◌, ◌||◌, Option, none, some, List, [], ◌∷◌, ◌++◌, String, str_eq,
  if◌then◌else◌, ltb, ◌==◌,
}
use go_bank.Common.Int.{ℤ, pos, leb_ℤ, eq_ℤ}
use go_bank.Common.Lists.{find_row, has_row, filter_rows, order_by, join_rows}
use go_bank.Db.Models.{Account, Entry, Transfer}
use go_bank.Db.World.{
  World, Action, DbError, pg_error, foreign_key_violation, ok, err, exchange, with_entries,
}
use go_bank.Db.Query.Page.{page_rows, one_row, account_is, transfer_is, entry_is}

pub record CreateEntryParams : Type 0 where
  pub account_id : ℤ
  pub amount : ℤ

pub record CreateTransferEntryParams : Type 0 where
  pub account_id : ℤ
  pub amount : ℤ
  pub transfer_id : Option ℤ

-- A null transfer id meets the foreign key.
abbrev pub transfer_exists : Option ℤ → List Transfer → Bool
transfer_exists none rows = true
transfer_exists (some id) rows = has_row (transfer_is id) rows

-- The row that is inserted, with the next id of the sequence.
abbrev pub new_entry : CreateTransferEntryParams → World → Entry
new_entry arg w = record {
  id = pos (w.entry_seq + 1);
  amount = arg.amount;
  account_id = arg.account_id;
  created_at = w.clock;
  transfer_id = arg.transfer_id;
}

abbrev pub drawn_id : World → World
drawn_id w = record w { entry_seq = w.entry_seq + 1 }

unfoldable pub create_transfer_entry : CreateTransferEntryParams → Action DbError Entry
create_transfer_entry arg = exchange λ w.
    if has_row (account_is arg.account_id) w.tables.accounts
      && transfer_exists arg.transfer_id w.tables.transfers
    then (
      ok (new_entry arg w),
      with_entries (drawn_id w) (w.tables.entries ++ new_entry arg w ∷ []),
    )
    else (err (pg_error foreign_key_violation), drawn_id w)

-- CreateEntry leaves the transfer id null.
abbrev plain_entry : CreateEntryParams → CreateTransferEntryParams
plain_entry arg = record { account_id = arg.account_id; amount = arg.amount; transfer_id = none }

unfoldable pub create_entry : CreateEntryParams → Action DbError Entry
create_entry arg = exchange λ w.
    if has_row (account_is arg.account_id) w.tables.accounts
    then (
      ok (new_entry (plain_entry arg) w),
      with_entries (drawn_id w) (w.tables.entries ++ new_entry (plain_entry arg) w ∷ []),
    )
    else (err (pg_error foreign_key_violation), drawn_id w)

unfoldable pub get_entry : ℤ → Action DbError Entry
get_entry id = exchange λ w. (one_row (find_row (entry_is id) w.tables.entries), w)

pub record ListEntriesParams : Type 0 where
  pub account_id : ℤ
  pub limit : ℤ
  pub offset : ℤ

abbrev on_account : ℤ → Entry → Bool
on_account id e = eq_ℤ e.account_id id

abbrev id_before : Entry → Entry → Bool
id_before a b = leb_ℤ a.id b.id

unfoldable pub list_entries : ListEntriesParams → Action DbError (List Entry)
list_entries arg = exchange λ w. (
  page_rows arg.limit arg.offset
      (order_by id_before (filter_rows (on_account arg.account_id) w.tables.entries)),
  w,
)

pub record ListActivityEntriesParams : Type 0 where
  pub owner : String
  pub offset_arg : ℤ
  pub limit_arg : ℤ

pub record ListActivityEntriesRow : Type 0 where
  pub id : ℤ
  pub account_id : ℤ
  pub amount : ℤ
  pub currency : String
  pub created_at : ℕ
  pub transfer_id : Option ℤ
  pub counterpart_account_id : Option ℤ
  pub counterpart_owner : Option String
  pub counterpart_currency : Option String

infixl 5 ◌>>=◌
abbrev ◌>>=◌ {ℓ κ} : {A : Type ℓ} {B : Type κ} → Option A → (A → Option B) → Option B
none >>= f = none
some a >>= f = f a

-- The CASE of the join: the other end of the transfer.
unfoldable pub counterpart_id : Entry → Option Transfer → Option ℤ
counterpart_id e none = none
counterpart_id e (some t) =
    if eq_ℤ t.from_account_id e.account_id
    then some t.to_account_id
    else if eq_ℤ t.to_account_id e.account_id
    then some t.from_account_id
    else none

abbrev pub counterpart : Entry → World → Option Account
counterpart e w =
    let t : Option Transfer =
      e.transfer_id >>= λ id. find_row (transfer_is id) w.tables.transfers in
    counterpart_id e t >>= λ id. find_row (account_is id) w.tables.accounts

abbrev pub activity_row : World → Entry → Account → ListActivityEntriesRow
activity_row w e a = record {
  id = e.id;
  account_id = e.account_id;
  amount = e.amount;
  currency = a.currency;
  created_at = e.created_at;
  transfer_id = e.transfer_id;
  counterpart_account_id = counterpart e w >>= λ ca. some ca.id;
  counterpart_owner = counterpart e w >>= λ ca. some ca.owner;
  counterpart_currency = counterpart e w >>= λ ca. some ca.currency;
}

-- The row of an entry on an account of the owner.
abbrev pub owned_activity : String → World → Entry → Option ListActivityEntriesRow
owned_activity owner w e = find_row (account_is e.account_id) w.tables.accounts >>= λ a.
    if str_eq a.owner owner then some (activity_row w e a) else none

-- `ORDER BY created_at DESC, id DESC`
abbrev pub newer_first : ListActivityEntriesRow → ListActivityEntriesRow → Bool
newer_first a b = ltb b.created_at a.created_at || (a.created_at == b.created_at && leb_ℤ b.id a.id)

unfoldable pub list_activity_entries :
    ListActivityEntriesParams → Action DbError (List ListActivityEntriesRow)
list_activity_entries arg = exchange λ w. (
  page_rows arg.limit_arg arg.offset_arg
      (order_by newer_first (join_rows (owned_activity arg.owner w) w.tables.entries)),
  w,
)
