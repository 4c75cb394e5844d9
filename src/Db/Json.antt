-- ===== src/Db/Json.antt =====
-- db/sqlc/account_json.go, entry_json.go and transfer_json.go: MarshalJSON of the rows, which writes
-- amounts of cents as float64. A JSON object is the record of its members.
use go_bank.Common.{ℕ, Option, String}
use go_bank.Common.Int.{ℤ}
use go_bank.Util.Float.{Float64, cents_to_float}
use go_bank.Db.Models.{Account, Entry, Transfer}

pub record AccountJson : Type 0 where
  pub id : ℤ
  pub owner : String
  pub balance : Float64
  pub currency : String
  pub created_at : ℕ

unfoldable pub account_json : Account → AccountJson
account_json a = record {
  id = a.id;
  owner = a.owner;
  balance = cents_to_float a.balance;
  currency = a.currency;
  created_at = a.created_at;
}

pub record EntryJson : Type 0 where
  pub id : ℤ
  pub account_id : ℤ
  pub amount : Float64
  pub created_at : ℕ
  pub transfer_id : Option ℤ

unfoldable pub entry_json : Entry → EntryJson
entry_json e = record {
  id = e.id;
  account_id = e.account_id;
  amount = cents_to_float e.amount;
  created_at = e.created_at;
  transfer_id = e.transfer_id;
}

pub record TransferJson : Type 0 where
  pub id : ℤ
  pub from_account_id : ℤ
  pub to_account_id : ℤ
  pub amount : Float64
  pub created_at : ℕ

unfoldable pub transfer_json : Transfer → TransferJson
transfer_json t = record {
  id = t.id;
  from_account_id = t.from_account_id;
  to_account_id = t.to_account_id;
  amount = cents_to_float t.amount;
  created_at = t.created_at;
}
