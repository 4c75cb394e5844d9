-- ===== src/Util/Config.antt =====
-- util/config.go: LoadConfig. Viper is a parameter: what reading the file gives, and what it decodes from the
-- file, the environment and the defaults.
use go_bank.Common.{ℕ, Option, none, some, List, [], ◌∷◌, String}

pub record Config : Type 0 where
  pub port : String
  pub db_url : String
  pub testing_db_url : String
  pub server_address : String
  pub token_symmetric_key : String
  pub access_token_duration : ℕ
  pub refresh_token_duration : ℕ
  pub grpc_server_port : String
  pub environment : String
  pub redis_address : String
  pub base_url : String
  pub email_sender_name : String
  pub email_sender_address : String
  pub email_sender_password : String

-- viper.ConfigFileNotFoundError, or another error.
pub data ReadError : Type 0 where
  file_not_found unreadable : ReadError

pub record Viper : Type 0 where
  pub read_in_config : (path name kind : String) → Option ReadError
  pub unmarshal : (defaults : List (String × String)) → Option Config

abbrev decoded : Option ReadError → Option Config → Option Config
decoded none config = config
decoded (some file_not_found) config = config
decoded (some unreadable) config = none

-- None is an error.
unfoldable pub load_config : Viper → (path : String) → Option Config
load_config viper path =
    decoded (viper.read_in_config path "app" "env")
      (viper.unmarshal (("ENVIRONMENT", "production") ∷ []))
