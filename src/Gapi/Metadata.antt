-- ===== src/Gapi/Metadata.antt =====
-- gapi/metadata.go.
use go_bank.Common.{Option, none, some, List, [], ◌∷◌, String, if◌then◌else◌, str_eq}
use go_bank.Gapi.Server.{Context}

pub record Metadata : Type 0 where
  pub client_ip : String
  pub user_agent : String

-- `md.Get(key)`: the values under a key, none if it is missing. Keys are in lower case.
unfoldable pub md_get : String → List (String × List String) → List String
md_get key [] = []
md_get key ((k, values) ∷ md) = if str_eq k key then values else md_get key md

-- The first of some values, or what was there before.
abbrev pub first_or : List String → String → String
first_or [] old = old
first_or (v ∷ vs) old = v

abbrev from_metadata : Option (List (String × List String)) → Metadata
from_metadata none = record { client_ip = ""; user_agent = "" }
from_metadata (some md) = record {
  client_ip = first_or (md_get "x-forwarded-for" md) "";
  user_agent = first_or (md_get "user-agent" md) (first_or (md_get "grpcgateway-user-agent" md) "");
}

abbrev with_peer : Option String → Metadata → Metadata
with_peer none m = m
with_peer (some addr) m = record m { client_ip = addr }

unfoldable pub extract_metadata : Context → Metadata
unfolding md_get
extract_metadata ctx = with_peer ctx.peer (from_metadata ctx.metadata)
