-- ===== src/Web/Headers.antt =====
-- What a step of a handler leaves of the headers.
use go_bank.Common.{
  ℕ, Bool, true, false, Option, none, some, List, [], ◌∷◌, ◌++◌, String, if◌then◌else◌, str_eq,
  eq_iff, ◌≡◌, refl, ap, ◌∙◌, arith, Bool-cases, inl, inr, Option-cases,
}
use go_bank.Common.Text.Search.{to_lower}
use go_bank.Web.{
  Response, Step, sets, sends, writes, same_name, header_set, header_lookup, write_header, write,
  run_step, run_steps, is_informational,
}

same_name_self : (name : String) → same_name name name ≡ true
same_name_self name = (eq_iff _ _).1 refl

-- Names that are the same as a third one.
same_name_along : (k n m : String) → same_name k n ≡ true → same_name k m ≡ same_name n m
same_name_along k n m h = ap (λ t. str_eq t (to_lower m)) ((eq_iff _ _).0 h)

pub header_lookup-header_set_self :
    (hs : List (String × String)) (n v : String) → header_lookup (header_set hs n v) n ≡ some v
unfolding header_lookup header_set
header_lookup-header_set_self [] n v = rw (same_name_self n) refl
header_lookup-header_set_self ((k, x) ∷ hs) n v = elim (Bool-cases (same_name k n)) [
  | inl same ↦ rw (same, header_lookup) (rw same refl)
  | inr other ↦ rw (other, header_lookup) (rw other (header_lookup-header_set_self hs n v))
]

pub header_lookup-header_set_other :
    (hs : List (String × String)) (n v m : String)
    → same_name n m ≡ false
    → header_lookup (header_set hs n v) m ≡ header_lookup hs m
unfolding header_lookup header_set
header_lookup-header_set_other [] n v m h = rw h refl
header_lookup-header_set_other ((k, x) ∷ hs) n v m h = elim (Bool-cases (same_name k n)) [
  | inl same ↦ rw (same, header_lookup) (rw (same_name_along k n m same ∙ h) refl)
  | inr other ↦
      rw (other, header_lookup)
        (ap (λ rest. if same_name k m then some x else rest)
          (header_lookup-header_set_other hs n v m h))
]

-- The header that the client gets: the one sent, or the writer's when nothing has been sent yet.
unfoldable pub final_header :
    Option (ℕ × List (String × String)) → List (String × String) → List (String × String)
final_header none header = header
final_header (some (code, sent)) header = sent

-- The value of a header, both in the writer's map and for the client.
abbrev pub Says : (name : String) → Option String → Response → Type 0
Says name value r =
    (header_lookup r.header name ≡ value)
    × (header_lookup (final_header r.sent r.header) name ≡ value)

-- No step sets a header.
abbrev pub leaves : String → Step → Bool
leaves name (sets n v) = if same_name n name then false else true
leaves name _ = true

abbrev pub AllLeave : String → List Step → Type 0
AllLeave name [] = Unit {0}
AllLeave name (s ∷ ss) = (leaves name s ≡ true) × AllLeave name ss

written_once :
    (code : ℕ) (r : Response) (s : ℕ × List (String × String))
    → r.sent ≡ some s
    → write_header code r ≡ r
unfolding write_header
written_once code r s h = ground (arith, h)

write_header-Says :
    (code : ℕ) (r : Response) (name : String) (value : Option String)
    → Says name value r
    → Says name value (write_header code r)
unfolding write_header final_header
write_header-Says code r name value (here, there) = elim (Option-cases r.sent) [
  | inl unsent ↦ elim (Bool-cases (is_informational code)) [
    | inl early ↦ rw (unsent, early) (here, here)
    | inr last ↦ rw (unsent, last) (here, here)
  ]
  | inr (s, was_sent) ↦ rw (written_once code r s was_sent) (here, there)
]

header_set-Says :
    (n v : String) (r : Response) (name : String) (value : Option String)
    → same_name n name ≡ false
    → Says name value r
    → Says name value (record r { header = header_set r.header n v })
unfolding final_header
header_set-Says n v r name value other (here, there) =
    let kept = header_lookup-header_set_other r.header n v name other ∙ here in
    elim (Option-cases r.sent) [
      | inl unsent ↦ (kept, rw unsent kept)
      | inr (s, was_sent) ↦ (kept, rw was_sent (rw was_sent at there))
    ]

if_not : (b : Bool) → (if b then false else true) ≡ true → b ≡ false
if_not true h = cc
if_not false h = refl

pub run_step-Says :
    (s : Step) (r : Response) (name : String) (value : Option String)
    → leaves name s ≡ true
    → Says name value r
    → Says name value (run_step s r)
unfolding run_step write
run_step-Says (sets n v) r name value other h = header_set-Says n v r name value (if_not _ other) h
run_step-Says (sends code) r name value other h = write_header-Says code r name value h
run_step-Says (writes b) r name value other h = write_header-Says 200 r name value h

-- A header that is set and then left alone is the one that the client gets.
pub run_steps-Says :
    (ss : List Step) (r : Response) (name : String) (value : Option String)
    → AllLeave name ss
    → Says name value r
    → Says name value (run_steps ss r)
unfolding run_steps
run_steps-Says [] r name value others h = h
run_steps-Says (s ∷ ss) r name value (first, others) h =
    run_steps-Says ss (run_step s r) name value others (run_step-Says s r name value first h)

-- Setting a header before anything is sent.
pub sets-Says :
    (name v : String) (r : Response) → r.sent ≡ none → Says name (some v) (run_step (sets name v) r)
unfolding run_step final_header
sets-Says name v r unsent =
    let set = header_lookup-header_set_self r.header name v in (set, rw unsent set)

pub run_steps-append :
    (xs ys : List Step) (r : Response) → run_steps (xs ++ ys) r ≡ run_steps ys (run_steps xs r)
unfolding run_steps
run_steps-append [] ys r = refl
run_steps-append (x ∷ xs) ys r = run_steps-append xs ys (run_step x r)
