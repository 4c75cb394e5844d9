-- ===== src/Tests/Jwt.antt =====
-- A token of the JWT maker.
use go_bank.Common.{
  ◌≡◌, refl, ap, sym, ◌∙◌, some_eq, ℕ, ◌+◌, ◌*◌, ◌/◌, ◌≤◌, ◌<◌, ◌==◌, ◌&&◌, Bool, true, false, none,
  some, String, str_eq, eq_iff, if◌then◌else◌, ltb, arith,
}
use go_bank.Token.Payload.{Payload, expired_token, new_payload}
use go_bank.Token.Jwt.{
  JwtLibrary, JwtClaims, JwtMaker, claims, token_expired, malformed, create_token, verify_token,
}
use go_bank.Token.Jwt.RoundTrip.{second, IsDocumented, carried, jwt_verify_token-create_token}
use go_bank.Db.World.{World, ok, err, exchange}
use go_bank.Tests.Data.{bank}

abbrev seconds : ℕ → ℕ
seconds t = t / 1_000_000 * 1_000_000

abbrev her_claims : JwtClaims
her_claims = record {
  id = 7;
  username = "alice";
  registered_id = 7;
  subject = "alice";
  issued_at = 0;
  expires_at = 5_000_000;
}

abbrev is_her_claims : JwtClaims → Bool
is_her_claims c =
    c.id == 7
    && str_eq c.username "alice"
    && c.registered_id == 7
    && str_eq c.subject "alice"
    && c.issued_at == 0
    && c.expires_at == 5_000_000

abbrev jwt : JwtLibrary
jwt = record {
  numeric_date = seconds;
  sign = λ key c. if is_her_claims c then some "jwt" else none;
  parse = λ key token now.
      if str_eq token "jwt"
      then (if ltb now 5_000_000 then claims her_claims else token_expired)
      else malformed;
}

hers : (c : JwtClaims) → is_her_claims c ≡ true → her_claims ≡ c
hers c h = ground (arith, (eq_iff c.username "alice").0, (eq_iff c.subject "alice").0)

abbrev JwtParses : String → JwtClaims → ℕ → Type 0
JwtParses token c now =
    jwt.parse "" token now ≡ (if ltb now c.expires_at then claims c else token_expired)

parses :
    (key token : String) (c : JwtClaims) (now : ℕ)
    → jwt.sign key c ≡ some token
    → JwtParses token c now
parses key token c now h = go (is_her_claims c) refl h
  where
    go :
        (b : Bool)
        → is_her_claims c ≡ b
        → (if b then some "jwt" else none) ≡ some token
        → JwtParses token c now
    go true e h' =
        ap (λ t. jwt.parse "" t now) (some_eq (sym h'))
        ∙ ap (λ x. if ltb now x.expires_at then claims x else token_expired) (hers c e)
    go false e h' = cc

not_later : (t : ℕ) → seconds t ≤ t
not_later t = omega arith

within_second : (t : ℕ) → t < seconds t + second
within_second t = omega arith

jwt-IsDocumented : IsDocumented jwt
jwt-IsDocumented = record { not_later = not_later; within_second = within_second; parses = parses }

abbrev maker : JwtMaker
maker = record { jwt = jwt; secret_key = "" }

-- Five and a half seconds from a millisecond.
abbrev payload : Payload
payload = record { id = 7; username = "alice"; issued_at = 1000; expired_at = 5_501_000 }

abbrev after_token : World
after_token = record bank { drawn = 1 }

token_run : create_token maker "alice" 5_500_000 bank ≡ (ok ("jwt", payload), after_token)
unfolding create_token new_payload exchange
token_run = refl

jwt_verify_token-create_token_example :
    (payload.username ≡ "alice")
    × (verify_token maker "jwt" bank ≡ (
      (if ltb bank.clock (seconds 5_501_000) then ok (carried jwt payload) else err expired_token),
      bank,
    ))
    × (seconds 5_501_000 ≤ 5_501_000)
    × (5_501_000 < seconds 5_501_000 + second)
jwt_verify_token-create_token_example =
    jwt_verify_token-create_token maker "alice" 5_500_000 bank after_token bank jwt-IsDocumented
      token_run
