-- ===== src/Tests/Rest.antt =====
-- Requests to the REST server on the small bank.
use go_bank.Common.{◌≡◌, ◌≢◌, refl, true, not, ◌&&◌, none, some, [], ◌∷◌, str_eq}
use go_bank.Common.Int.{pos, eq_ℤ, leb_ℤ, min_int64, neg_int64, ◌+ℤ◌, ◌-ℤ◌}
use go_bank.Util.Float.{Float64, is_nan, is_zero, le_zero, lt_zero, float_to_cents}
use go_bank.Util.Currencies.{is_supported_currency}
use go_bank.Val.Validation.{
  validate_string, validate_username, validate_password, is_valid_username,
}
use go_bank.Db.World.{World, ok, exchange}
use go_bank.Db.Effects.{ReadsOnly, IsAtomic}
use go_bank.Db.Query.Accounts as Query
use go_bank.Db.Query.Accounts.{add_account_balance}
use go_bank.Db.Query.Accounts.Credit.{total}
use go_bank.Db.Query.Entries.{create_transfer_entry}
use go_bank.Db.Query.Transfers as Query_transfers
use go_bank.Db.Tx.Exec.{exec_tx}
use go_bank.Db.Tx.Transfer.{
  TransferTxResult, add_money, update_balances, transfer_body, transfer_tx,
}
use go_bank.Gapi.Metadata.{extract_metadata}
use go_bank.Gapi.Accounts as Rpc_accounts
use go_bank.Gapi.Transfers as Rpc_transfers
use go_bank.Gapi.Sessions as Rpc_sessions
use go_bank.Api.Status.{unauthorized, forbidden}
use go_bank.Api.Binding.{Validator, valid_currency}
use go_bank.Api.Server.{Server, GinContext}
use go_bank.Api.Accounts.{
  CreateAccountRequest, IdRequest, ListAccountsRequest, UpdateAccountJson, create_account,
  get_account, list_accounts, update_account, delete_account,
}
use go_bank.Api.Transfers.{
  TransferRequest, transfer_tags, result_json, valid_account, check_transfer, commit_transfer,
  create_transfer,
}
use go_bank.Api.Transfers.Effect.{Allowed, requested, create_transfer-Allowed}
use go_bank.Api.Users.{create_user}
use go_bank.Api.Sessions.{
  LoginUserRequest, RenewAccessTokenRequest, login_user_tags, renew_access_token_tags, login_user,
  renew_access_token,
}
use go_bank.Api.Effects.{handlers-IsAtomic}
use go_bank.Api.Agreement.{Agree}
use go_bank.Api.Agreement.Rules.{translate}
use go_bank.Api.Agreement.Sessions.{IsSession, IsRenewed, sessions-Agree}
use go_bank.Api.Router.{Route, get_accounts_id, serve}
use go_bank.Api.Router.Access.{Outcome, serve_cases}
use go_bank.Tests.Transfers.{three_result}
use go_bank.Tests.Data.{bank, alice_account, alice_payload, server, as_alice}

abbrev validator : Validator
validator = record {
  required_text = λ s. not (str_eq s "");
  required_int = λ n. not (eq_ℤ n (pos 0));
  required_float = λ x. not (is_zero x);
  alphanum = λ s. true;
  email = λ s. true;
  min_text = λ bound s. true;
  min_int = λ bound n. leb_ℤ bound n;
  max_int = λ bound n. leb_ℤ n bound;
  gt_zero = λ x. not (is_nan x) && not (le_zero x);
  gte_zero = λ x. not (is_nan x) && not (lt_zero x);
}

abbrev rest : Server
rest = record {
  token_maker = server.token_maker;
  config = record {
    token_symmetric_key = "";
    access_token_duration = 900;
    refresh_token_duration = 86400;
  };
  libraries = record {
    cipher = server.token_maker.paseto;
    bcrypt = server.bcrypt;
    validator = validator;
    out_of_range = server.out_of_range;
  };
}

abbrev by_alice : GinContext
by_alice = record {
  authorization = "Bearer token";
  payload = some alice_payload;
  user_agent = "";
  client_ip = "";
}

-- 3.00 as a float64.
abbrev three : Float64
three = 4613937818241073152

abbrev first : IdRequest
first = record { id = pos 1 }

abbrev page : ListAccountsRequest
page = record { page_id = pos 1; page_size = pos 5 }

abbrev three_body : UpdateAccountJson
three_body = record { balance = three }

abbrev in_euro : CreateAccountRequest
in_euro = record { currency = "EUR" }

abbrev to_bob : TransferRequest
to_bob = record { from_account_id = pos 1; to_account_id = pos 2; amount = three; currency = "USD" }

abbrev login : LoginUserRequest
login = record { username = "alice"; password = "password" }

abbrev renew : RenewAccessTokenRequest
renew = record { refresh_token = "token" }

sessions-Agree_example :
    Agree IsSession
      (translate unauthorized forbidden)
      (login_user rest by_alice (some login))
      (Rpc_sessions.login_user server as_alice "alice" "password")
    × Agree IsRenewed
        (translate unauthorized forbidden)
        (renew_access_token rest (some renew))
        (Rpc_sessions.renew_access_token server "token")
unfolding login_user_tags renew_access_token_tags Rpc_sessions.validate_login_user_request
    Rpc_sessions.validate_renew_access_token_request validate_username validate_password
    validate_string is_valid_username extract_metadata
sessions-Agree_example =
    sessions-Agree rest server by_alice as_alice login renew
      (record { maker = refl; access = refl; refresh = refl; bcrypt = refl }) refl refl refl refl

-- From the first account to itself.
abbrev round : TransferRequest
round = record to_bob { to_account_id = pos 1 }

-- The target is updated first here, so the answer shows it with the amount that is then taken.
abbrev round_result : TransferTxResult
round_result = record {
  transfer = record three_result.transfer { to_account_id = pos 1 };
  from_account = alice_account;
  to_account = record alice_account { balance = pos 10300 };
  from_entry = three_result.from_entry;
  to_entry = record three_result.to_entry { account_id = pos 1 };
}

abbrev after_round : World
after_round = record bank {
  tables = record (bank.tables) {
    entries = round_result.from_entry ∷ round_result.to_entry ∷ [];
    transfers = round_result.transfer ∷ [];
  };
  transfer_seq = 1;
  entry_seq = 2;
}

round_run :
    create_transfer rest by_alice (some round) bank ≡ (ok (result_json round_result), after_round)
unfolding create_transfer check_transfer transfer_tags valid_currency is_supported_currency
    valid_account Query.get_account exchange float_to_cents commit_transfer result_json transfer_tx
    exec_tx transfer_body Query_transfers.create_transfer create_transfer_entry neg_int64
    update_balances add_money add_account_balance ◌+ℤ◌ ◌-ℤ◌
round_run = refl

round_amount : requested rest round ≢ min_int64
unfolding float_to_cents
round_amount = cc

create_transfer-Allowed_example :
    Allowed (requested rest round) by_alice round bank.tables
    × (transfer_tags validator round ≡ true)
    × (total after_round.tables.accounts ≡ total bank.tables.accounts)
create_transfer-Allowed_example =
    create_transfer-Allowed rest by_alice round bank after_round round_amount round_run

abbrev own : Route
own = get_accounts_id (some first)

serve_cases_example : Outcome rest by_alice own bank (serve rest by_alice own bank)
serve_cases_example = serve_cases rest by_alice own bank

handlers-IsAtomic_example :
    ReadsOnly (get_account rest by_alice (some first))
    × ReadsOnly (list_accounts rest by_alice (some page))
    × ReadsOnly (renew_access_token rest (some renew))
    × IsAtomic (create_user rest none)
    × IsAtomic (login_user rest by_alice (some login))
    × IsAtomic (create_account rest by_alice (some in_euro))
    × IsAtomic (update_account rest by_alice (some first) (some three_body))
    × IsAtomic (delete_account rest by_alice (some first))
    × IsAtomic (create_transfer rest by_alice (some to_bob))
handlers-IsAtomic_example =
    handlers-IsAtomic rest by_alice (some first) (some page) (some renew) none (some login)
      (some in_euro) (some three_body) (some to_bob)
