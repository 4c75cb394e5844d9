-- ===== src/Api/Agreement/Accounts.antt =====
-- The account handlers of api against the RPCs.
use go_bank.Common.{◌≡◌, List, map}
use go_bank.Db.Models.{Account}
use go_bank.Db.Json.{AccountJson, account_json}
use go_bank.Db.Query.Accounts
use go_bank.Gapi.Server as Grpc
use go_bank.Gapi.Accounts as Rpc
use go_bank.Gapi.Accounts.{PbAccount, convert_account}
use go_bank.Api.Server.{Server}

-- Two answers about one row.
abbrev pub IsRow : AccountJson → PbAccount → Type 0
IsRow json pb = (a : Account) × (json ≡ account_json a) × (pb ≡ convert_account a)

abbrev pub IsRows : List AccountJson → List PbAccount → Type 0
IsRows json pb =
    (as' : List Account) × (json ≡ map account_json as') × (pb ≡ map convert_account as')
