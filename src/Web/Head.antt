-- ===== src/Web/Head.antt =====
-- What a client gets of a body, by the method of its request.
use go_bank.Common.{◌≡◌, refl, ◌∙◌, true, false, List, [], ◌∷◌, arith}
use go_bank.Web.{
  Response, Step, sets, sends, writes, write_header, write, run_step, run_steps, received,
}

is_head-run_step : (s : Step) (v : Response) → (run_step s v).is_head ≡ v.is_head
unfolding run_step write_header write
is_head-run_step (sets name value) v = refl
is_head-run_step (sends code) v = ground arith
is_head-run_step (writes b) v = ground arith

pub is_head-run_steps : (steps : List Step) (v : Response) → (run_steps steps v).is_head ≡ v.is_head
unfolding run_steps
is_head-run_steps [] v = refl
is_head-run_steps (s ∷ steps) v = is_head-run_steps steps (run_step s v) ∙ is_head-run_step s v

pub received_body : (v : Response) → v.is_head ≡ false → received v ≡ v.body
unfolding received
received_body v h = rw h refl

pub received_none : (v : Response) → v.is_head ≡ true → received v ≡ []
unfolding received
received_none v h = rw h refl
