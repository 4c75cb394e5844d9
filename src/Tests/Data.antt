-- ===== src/Tests/Data.antt =====
-- A small bank: two users with an account each, in the same currency, and nothing going wrong.
use go_bank.Common.{
  ◌+◌, ◌==◌, ◌&&◌, Bool, true, false, none, some, [], ◌∷◌, String, str_eq, if◌then◌else◌,
}
use go_bank.Common.Int.{pos, min_int64}
use go_bank.Util.Float.{Float64}
use go_bank.Token.Payload.{Payload}
use go_bank.Token.Paseto.{Cipher}
use go_bank.Db.Models.{Account, User}
use go_bank.Logger.Values.{background}
use go_bank.Db.World.{World}
use go_bank.Gapi.Server.{Server, Context}
use go_bank.Gapi.Transfers.{CreateTransferRequest}
use go_bank.Gapi.Users.{CreateUserRequest, UpdateUserRequest}

abbrev pub alice_account : Account
alice_account = record {
  id = pos 1;
  owner = "alice";
  balance = pos 10000;
  currency = "USD";
  created_at = 5;
}

abbrev pub bob_account : Account
bob_account = record {
  id = pos 2;
  owner = "bob";
  balance = pos 500;
  currency = "USD";
  created_at = 6;
}

abbrev user_named : String → String → User
user_named name email = record {
  username = name;
  hashed_password = "hash";
  full_name = "Some One";
  email = email;
  password_changed_at = 0;
  created_at = 1;
  is_email_verified = false;
}

abbrev pub alice : User
alice = user_named "alice" "alice@mail.com"

abbrev pub bob : User
bob = user_named "bob" "bob@mail.com"

abbrev pub bank : World
bank = record {
  tables = record {
    accounts = alice_account ∷ bob_account ∷ [];
    entries = [];
    transfers = [];
    users = alice ∷ bob ∷ [];
    sessions = [];
    verify_emails = [];
  };
  account_seq = 2;
  entry_seq = 0;
  transfer_seq = 0;
  verify_email_seq = 0;
  clock = 1000;
  faults = [];
  queue = [];
  draws = λ n. n + 7;
  drawn = 0;
  outbox = [];
}

-- A payload of Alice's, and a cipher that knows no token but hers.
abbrev pub alice_payload : Payload
alice_payload = record { id = 7; username = "alice"; issued_at = 1000; expired_at = 1900 }

abbrev pub is_hers : Payload → Bool
is_hers p = p.id == 7 && str_eq p.username "alice" && p.issued_at == 1000 && p.expired_at == 1900

abbrev pub cipher : Cipher
cipher = record {
  encrypt = λ key p. if is_hers p then some "token" else none;
  decrypt = λ key token. if str_eq token "token" then some alice_payload else none;
}

abbrev pub server : Server
server = record {
  token_maker = record { paseto = cipher; symmetric_key = "" };
  access_token_duration = 900;
  refresh_token_duration = 86400;
  bcrypt = record {
    generate_from_password = λ salt password. some password;
    compare_hash_and_password = λ hash password. true;
  };
  parse_address = λ s. true;
  out_of_range = λ x. min_int64;
}

abbrev pub as_alice : Context
as_alice = record {
  auth_payload = some alice_payload;
  metadata = none;
  peer = none;
  deadline = none;
  values = background;
}

abbrev pub to_bob : Float64 → CreateTransferRequest
to_bob amount = record {
  from_account_id = pos 1;
  to_account_id = pos 2;
  amount = amount;
  currency = "USD";
}

abbrev pub carol : CreateUserRequest
carol = record {
  username = "carol";
  password = "password";
  full_name = "Carol C";
  email = "carol@mail.com";
}

abbrev pub renamed : UpdateUserRequest
renamed = record {
  username = "alice";
  full_name = some "Alice A";
  email = none;
  password = some "new password";
}
