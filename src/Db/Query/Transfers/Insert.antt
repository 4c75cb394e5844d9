-- ===== src/Db/Query/Transfers/Insert.antt =====
-- What CreateTransfer has done when it succeeds.
use go_bank.Common.{◌≡◌, true, [], ◌∷◌, ◌++◌, arith}
use go_bank.Common.Lists.{has_row}
use go_bank.Db.Models.{Transfer}
use go_bank.Db.World.{World, Tables, ok, exchange_ok}
use go_bank.Db.Query.Page.{account_is}
use go_bank.Db.Query.Transfers.{CreateTransferParams, create_transfer}

pub record Recorded (arg : CreateTransferParams) (new : Transfer) (t t' : Tables) : Type 0 where
  pub from_known : has_row (account_is arg.from_account_id) t.accounts ≡ true
  pub to_known : has_row (account_is arg.to_account_id) t.accounts ≡ true
  pub from_account_id : new.from_account_id ≡ arg.from_account_id
  pub to_account_id : new.to_account_id ≡ arg.to_account_id
  pub amount : new.amount ≡ arg.amount
  pub after : t' ≡ record t { transfers = t.transfers ++ new ∷ [] }

pub create_transfer-Recorded :
    (arg : CreateTransferParams) (w w' : World) {new : Transfer}
    → create_transfer arg w ≡ (ok new, w')
    → Recorded arg new w.tables w'.tables
unfolding create_transfer
create_transfer-Recorded arg w w' h = let (later, done) = exchange_ok _ w w' h in ground arith
