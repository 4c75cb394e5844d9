-- ===== src/Db/Query/Entries/Insert.antt =====
-- What CreateTransferEntry has done when it succeeds.
use go_bank.Common.{◌≡◌, true, [], ◌∷◌, ◌++◌, arith}
use go_bank.Common.Lists.{has_row}
use go_bank.Db.Models.{Entry}
use go_bank.Db.World.{World, Tables, ok, exchange_ok}
use go_bank.Db.Query.Page.{account_is}
use go_bank.Db.Query.Entries.{CreateTransferEntryParams, transfer_exists, create_transfer_entry}

pub record Posted (arg : CreateTransferEntryParams) (new : Entry) (t t' : Tables) : Type 0 where
  pub account_known : has_row (account_is arg.account_id) t.accounts ≡ true
  pub transfer_known : transfer_exists arg.transfer_id t.transfers ≡ true
  pub account_id : new.account_id ≡ arg.account_id
  pub amount : new.amount ≡ arg.amount
  pub transfer_id : new.transfer_id ≡ arg.transfer_id
  pub after : t' ≡ record t { entries = t.entries ++ new ∷ [] }

pub create_transfer_entry-Posted :
    (arg : CreateTransferEntryParams) (w w' : World) {new : Entry}
    → create_transfer_entry arg w ≡ (ok new, w')
    → Posted arg new w.tables w'.tables
unfolding create_transfer_entry
create_transfer_entry-Posted arg w w' h = let (later, done) = exchange_ok _ w w' h in ground arith
