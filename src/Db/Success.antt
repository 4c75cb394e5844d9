-- ===== src/Db/Success.antt =====
-- Calls that succeed when no fault is waiting.
use go_bank.Common.{◌≡◌, refl, ap, ◌∙◌, [], arith}
use go_bank.Db.World.{World, Action, DbError, ok, pure, exchange, bind_result, ◌>>=◌}

-- The call succeeds, and no fault is waiting after it.
pub record Runs {A : Type 0} (m : Action DbError A) (w : World) : Type 0 where
  pub value : A
  pub final : World
  pub ran : m w ≡ (ok value, final)
  pub quiet : final.faults ≡ []

pub then-Runs :
    {A B : Type 0} {m : Action DbError A} {w : World} (r : Runs m w) (f : A → Action DbError B)
    → Runs (f r.value) r.final
    → Runs (m >>= f) w
then-Runs r f s = record {
  value = s.value;
  final = s.final;
  ran = ap (λ p. bind_result f p.0 p.1) r.ran ∙ s.ran;
  quiet = s.quiet;
}

pub pure-Runs : {A : Type 0} (a : A) (w : World) → w.faults ≡ [] → Runs (pure a) w
pure-Runs a w h = record { value = a; final = w; ran = refl; quiet = h }

pub exchange_quiet :
    {A : Type 0} (m : Action DbError A) (w : World) → w.faults ≡ [] → exchange m w ≡ m w
unfolding exchange
exchange_quiet m w h = ground arith
