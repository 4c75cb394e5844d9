-- ===== src/Gapi/Interceptor.antt =====
-- gapi/middleware.go. `strings.Fields` splits at runs of Unicode white space. Of `strings.ToLower` only the
-- comparison with "bearer" is used, and no letter outside ASCII has a letter of that word as its lower
-- case, so lowering A to Z is exact there.
pub mod Access
pub mod Cases
use Prim.Native.Char.{Char, code}
use Prim.Native.String
use go_bank.Common.{
  ℕ, ◌+◌, Bool, not, ◌&&◌, ◌||◌, Option, none, some, List, [], ◌∷◌, String, if◌then◌else◌, leb,
  ◌==◌, str_eq,
}
use go_bank.Common.Text.{is_space, single}
use go_bank.Token.Payload.{Payload}
use go_bank.Token.Paseto.{verify_token}
use go_bank.Db.World.{pure, fail, or_else, ◌>>=◌, ◌>>◌}
use go_bank.Gapi.Status.{Rpc, status, unauthenticated, refuse_if}
use go_bank.Gapi.Server.{Server, Context}
use go_bank.Gapi.Metadata.{md_get}
use go_bank.Gapi.Sessions.{token_unauthenticated}

unfoldable pub is_public_route : String → Bool
is_public_route method =
    str_eq method "/pb.GoBank/CreateUser"
    || str_eq method "/pb.GoBank/LoginUser"
    || str_eq method "/pb.GoBank/RenewAccessToken"
    || str_eq method "/pb.GoBank/VerifyEmail"

abbrev push : String → Char → String
push s c = String.◌++◌ s (single c)

-- Ends the current field, unless it is empty.
abbrev close_field : String → List String → List String
close_field String.[] rest = rest
close_field (String.◌∷◌ c s) rest = String.◌∷◌ c s ∷ rest

fields_from : (current rest : String) → List String
fields_from current String.[] = close_field current []
fields_from current (String.◌∷◌ c s) =
    let closed = fields_from "" s in
    let longer = fields_from (push current c) s in
    if is_space (code c) then close_field current closed else longer

-- strings.Fields
unfoldable pub fields : String → List String
unfolding fields_from
fields s = fields_from "" s

abbrev lower : ℕ → ℕ
lower c = if leb b'A' c && leb c b'Z' then c + 32 else c

abbrev lower_codes : String → List ℕ
lower_codes String.[] = []
lower_codes (String.◌∷◌ c s) = lower (code c) ∷ lower_codes s

abbrev codes_eq : List ℕ → List ℕ → Bool
codes_eq [] [] = Bool.true
codes_eq (a ∷ as') (b ∷ bs) = a == b && codes_eq as' bs
codes_eq _ _ = Bool.false

-- `strings.ToLower(fields[0]) == "bearer"`
unfoldable pub is_bearer : String → Bool
is_bearer auth_type = codes_eq (lower_codes auth_type) (lower_codes "bearer")

-- The second of at least two fields, the first of which is "bearer".
unfoldable pub bearer_token : List String → Rpc String
bearer_token (auth_type ∷ access_token ∷ more) = do
  refuse_if (not (is_bearer auth_type)) unauthenticated
  pure access_token
bearer_token _ = fail (status unauthenticated)

-- The first value of the header.
abbrev header_value : List String → Rpc String
header_value [] = fail (status unauthenticated)
header_value (v ∷ vs) = pure v

abbrev metadata_or_fail : Option (List (String × List String)) → Rpc (List (String × List String))
metadata_or_fail none = fail (status unauthenticated)
metadata_or_fail (some md) = pure md

-- What the interceptor does before it calls the handler on a protected route.
unfoldable pub authenticate : Server → Context → Rpc Payload
authenticate server ctx = do
  md ← metadata_or_fail ctx.metadata
  auth_header ← header_value (md_get "authorization" md)
  access_token ← bearer_token (fields auth_header)
  or_else (verify_token server.token_maker access_token) token_unauthenticated

unfoldable pub auth_interceptor :
    {A : Type 0} → Server → (full_method : String) → Context → (Context → Rpc A) → Rpc A
auth_interceptor server full_method ctx handler =
    if is_public_route full_method
    then handler ctx
    else (authenticate server ctx >>= λ payload.
        handler (record ctx { auth_payload = some payload }))
