-- ===== src/Token/Paseto/RoundTrip.antt =====
-- CreateToken and then VerifyToken with the same key.
use go_bank.Common.{
  ◌≡◌, ap, sym, ◌∙◌, ℕ, ◌+◌, String, Option, none, some, if◌then◌else◌, ltb, arith,
}
use go_bank.Db.World.{World, ok, err, exchange, >>=-eq-ok}
use go_bank.Token.Payload.{Payload, expired_token, new_payload, valid}
use go_bank.Token.Paseto.{IsFaithful, PasetoMaker, sealed, create_token, verify_token}

pub verify_token_stays :
    (maker : PasetoMaker) (token : String) (w w' : World) {p : Payload}
    → verify_token maker token w ≡ (ok p, w')
    → w ≡ w'
unfolding verify_token
verify_token_stays maker token w w' h = ap (λ r. r.1) h

new_payload_made :
    (name : String) (duration : ℕ) (w w' : World) {p : Payload}
    → new_payload name duration w ≡ (ok p, w')
    → (p.username ≡ name) × (p.expired_at ≡ w.clock + duration)
unfolding new_payload exchange
new_payload_made name duration w w' h = ground arith

sealed_by :
    (o : Option String) (p : Payload) (w w' : World) {token : String} {q : Payload}
    → sealed o p w ≡ (ok (token, q), w')
    → (o ≡ some token) × (p ≡ q)
sealed_by none p w w' h = cc
sealed_by (some t) p w w' h = ground arith

-- What CreateToken has put into the token.
pub create_token_made :
    (maker : PasetoMaker) (name : String) (duration : ℕ) (w w' : World) {token : String}
    {p : Payload}
    → create_token maker name duration w ≡ (ok (token, p), w')
    → (p.username ≡ name)
      × (p.expired_at ≡ w.clock + duration)
      × (maker.paseto.encrypt maker.symmetric_key p ≡ some token)
unfolding create_token
create_token_made maker name duration w w' {token} h =
    let (q, u, made, done) = >>=-eq-ok (new_payload name duration) _ w w' h in
    let (cipher, same) = sealed_by _ q u w' done in
    let (who, until) = new_payload_made name duration w u made in
    (
      ap (λ x. x.username) (sym same) ∙ who,
      ap (λ x. x.expired_at) (sym same) ∙ until,
      ap (maker.paseto.encrypt maker.symmetric_key) (sym same) ∙ cipher,
    )

-- A token that CreateToken returned, under an encryption that can be decrypted, names the user it was
-- made for; VerifyToken with the same key returns its payload until the duration has passed
-- since its creation, and refuses it as expired later.
pub verify_token-create_token :
    (maker : PasetoMaker) (name : String) (duration : ℕ) (w w' v : World) {token : String}
    {p : Payload}
    → IsFaithful maker.paseto
    → create_token maker name duration w ≡ (ok (token, p), w')
    → (p.username ≡ name)
      × (verify_token maker token v
          ≡ ((if ltb (w.clock + duration) v.clock then err expired_token else ok p), v))
unfolding verify_token valid
verify_token-create_token maker name duration w w' v {token} {p} faithful h =
    let (who, until, cipher) = create_token_made maker name duration w w' h in
    (who, rw (faithful maker.symmetric_key token p cipher, until))
