-- ===== src/Token/Jwt/RoundTrip.antt =====
-- CreateToken and then VerifyToken of the JWT maker with the same key.
use go_bank.Common.{
  ◌≡◌, refl, ap, sym, ◌∙◌, ℕ, Bool, true, false, ◌+◌, ◌≤◌, ◌<◌, String, Option, none, some,
  if◌then◌else◌, ltb, arith,
}
use go_bank.Db.World.{World, ok, err, exchange, >>=-eq-ok}
use go_bank.Token.Payload.{Payload, expired_token, new_payload}
use go_bank.Token.Jwt.{
  JwtLibrary, JwtClaims, JwtMaker, claims, token_expired, claims_of, signed, checked, to_payload,
  create_token, verify_token,
}

-- One second in microseconds, the precision of a numeric date.
abbrev pub second : ℕ
second = 1_000_000

-- What the library documents: a numeric date leaves out fractions of a second, and a token that was signed
-- parses with the same key to its claims until they expire.
pub record IsDocumented (jwt : JwtLibrary) : Type 0 where
  pub not_later : (t : ℕ) → jwt.numeric_date t ≤ t
  pub within_second : (t : ℕ) → t < jwt.numeric_date t + second
  pub parses :
      (key token : String) (c : JwtClaims) (now : ℕ)
      → jwt.sign key c ≡ some token
      → jwt.parse key token now ≡ (if ltb now c.expires_at then claims c else token_expired)

signed_by :
    (o : Option String) (p : Payload) (w w' : World) {token : String} {q : Payload}
    → signed o p w ≡ (ok (token, q), w')
    → (o ≡ some token) × (p ≡ q)
signed_by none p w w' h = cc
signed_by (some t) p w w' h = ground arith

payload_made :
    (name : String) (duration : ℕ) (w w' : World) {p : Payload}
    → new_payload name duration w ≡ (ok p, w')
    → (p.username ≡ name) × (p.issued_at ≡ w.clock) × (p.expired_at ≡ w.clock + duration)
unfolding new_payload exchange
payload_made name duration w w' h = ground arith

-- The payload that the token carries: its times are numeric dates.
abbrev pub carried : JwtLibrary → Payload → Payload
carried jwt p = record p {
  issued_at = jwt.numeric_date p.issued_at;
  expired_at = jwt.numeric_date p.expired_at;
}

checked_if :
    (b : Bool) (c : JwtClaims)
    → checked (if b then claims c else token_expired)
      ≡ (if b then ok (to_payload c) else err expired_token)
checked_if true c = refl
checked_if false c = refl

-- A token that CreateToken of the JWT maker returned, under a library that does as documented, names the user it was
-- made for; VerifyToken with the same key returns its payload with the times cut to seconds before
-- the cut expiry, and refuses it as expired from then on, which is less than a second before the
-- duration has passed.
pub jwt_verify_token-create_token :
    (maker : JwtMaker) (name : String) (duration : ℕ) (w w' v : World) {token : String}
    {p : Payload}
    → IsDocumented maker.jwt
    → create_token maker name duration w ≡ (ok (token, p), w')
    → (p.username ≡ name)
      × (verify_token maker token v ≡ (
        (if ltb v.clock (maker.jwt.numeric_date (w.clock + duration))
            then ok (carried maker.jwt p)
            else err expired_token),
        v,
      ))
      × (maker.jwt.numeric_date (w.clock + duration) ≤ w.clock + duration)
      × (w.clock + duration < maker.jwt.numeric_date (w.clock + duration) + second)
unfolding create_token verify_token to_payload
jwt_verify_token-create_token maker name duration w w' v {token} {p} doc h =
    let (q, u, made, done) = >>=-eq-ok (new_payload name duration) _ w w' h in
    let (sign, same) = signed_by _ q u w' done in
    let (who, _, until) = payload_made name duration w u made in
    let expiry : p.expired_at ≡ w.clock + duration = ap (λ x. x.expired_at) (sym same) ∙ until in
    let mine =
      ap (λ x. maker.jwt.sign maker.secret_key (claims_of maker.jwt x)) (sym same) ∙ sign in
    (
      ap (λ x. x.username) (sym same) ∙ who,
      ap (λ r. (r, v))
          (ap checked (doc.parses maker.secret_key token (claims_of maker.jwt p) v.clock mine)
            ∙ checked_if (ltb v.clock (maker.jwt.numeric_date p.expired_at)) (claims_of maker.jwt p)
            ∙ ap
                (λ t.
                  if ltb v.clock (maker.jwt.numeric_date t)
                  then ok (carried maker.jwt p)
                  else err expired_token)
                expiry),
      doc.not_later (w.clock + duration),
      doc.within_second (w.clock + duration),
    )
