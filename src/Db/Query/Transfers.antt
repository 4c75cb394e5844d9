-- ===== src/Db/Query/Transfers.antt =====
-- db/sqlc/transfer.sql.go. `transfers` has foreign keys to accounts for both ends.
pub mod Insert
use go_bank.Common.{ℕ, ◌+◌, Bool, ◌&&◌, Option, none, some, List, [], ◌∷◌, ◌++◌, if◌then◌else◌}
use go_bank.Common.Int.{ℤ, pos, leb_ℤ}
use go_bank.Common.Lists.{find_row, has_row, order_by}
use go_bank.Db.Models.{Transfer}
use go_bank.Db.World.{
  World, Action, DbError, pg_error, foreign_key_violation, ok, err, exchange, with_transfers,
}
use go_bank.Db.Query.Page.{page_rows, one_row, account_is, transfer_is}

pub record CreateTransferParams : Type 0 where
  pub from_account_id : ℤ
  pub to_account_id : ℤ
  pub amount : ℤ

-- The row that is inserted, with the next id of the sequence.
abbrev pub new_transfer : CreateTransferParams → World → Transfer
new_transfer arg w = record {
  id = pos (w.transfer_seq + 1);
  from_account_id = arg.from_account_id;
  to_account_id = arg.to_account_id;
  amount = arg.amount;
  created_at = w.clock;
}

abbrev pub drawn_id : World → World
drawn_id w = record w { transfer_seq = w.transfer_seq + 1 }

unfoldable pub create_transfer : CreateTransferParams → Action DbError Transfer
create_transfer arg = exchange λ w.
    if has_row (account_is arg.from_account_id) w.tables.accounts
      && has_row (account_is arg.to_account_id) w.tables.accounts
    then (
      ok (new_transfer arg w),
      with_transfers (drawn_id w) (w.tables.transfers ++ new_transfer arg w ∷ []),
    )
    else (err (pg_error foreign_key_violation), drawn_id w)

unfoldable pub get_transfer : ℤ → Action DbError Transfer
get_transfer id = exchange λ w. (one_row (find_row (transfer_is id) w.tables.transfers), w)

pub record ListTransfersParams : Type 0 where
  pub limit : ℤ
  pub offset : ℤ

abbrev id_before : Transfer → Transfer → Bool
id_before a b = leb_ℤ a.id b.id

unfoldable pub list_transfers : ListTransfersParams → Action DbError (List Transfer)
list_transfers arg =
    exchange λ w. (page_rows arg.limit arg.offset (order_by id_before w.tables.transfers), w)
