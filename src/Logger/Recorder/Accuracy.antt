-- ===== src/Logger/Recorder/Accuracy.antt =====
-- The recorder is invisible to the client, and what it has recorded is what the server has taken.
use go_bank.Common.{
  ℕ, ◌+◌, Bool, true, false, not, Option, none, some, List, [], ◌∷◌, ◌++◌, ◌≡◌, refl, arith, ap,
  sym, ◌∙◌, String, Option-cases, inl, inr,
}
use go_bank.Common.Lists.{length}
use go_bank.Web.{
  Response, Step, sets, sends, writes, is_informational, accepted, write_header, write, run_step,
  run_steps, status_of,
}
use go_bank.Logger.Recorder.{
  ResponseRecorder, new_response_recorder, note_header, note_write, note_step, note_steps,
}

-- No step sends an informational status.
abbrev pub is_final_step : Step → Bool
is_final_step (sets name value) = true
is_final_step (sends code) = not (is_informational code)
is_final_step (writes b) = true

abbrev pub AllFinal : List Step → Type 0
AllFinal [] = Unit {0}
AllFinal (s ∷ ss) = (is_final_step s ≡ true) × AllFinal ss

abbrev is_sent : Option (ℕ × List (String × String)) → Bool
is_sent none = false
is_sent (some s) = true

-- What the recorder keeps of the response that it wraps.
record Tracks (r : ResponseRecorder) : Type 0 where
  flag : r.wrote_header ≡ is_sent r.response.sent
  code : r.status_code ≡ status_of r.response.sent
  size : r.bytes_written ≡ length r.response.body

length-append : (xs ys : List ℕ) → length (xs ++ ys) ≡ length xs + length ys
length-append [] ys = omega arith
length-append (x ∷ xs) ys = omega (arith, length-append xs ys)

abbrev Follows : ResponseRecorder → Response → Type 0
Follows r w = Tracks r × (r.response ≡ w)

note_header-Tracks :
    (code : ℕ) (r : ResponseRecorder)
    → is_informational code ≡ false
    → Tracks r
    → Follows (note_header code r) (write_header code r.response)
unfolding note_header write_header status_of
note_header-Tracks code r h t = elim (Option-cases r.response.sent) [
  | inl none_sent ↦ ground (arith, t.flag)
  | inr (s, was_sent) ↦ ground (arith, t.flag)
]

write_header_twice :
    (code : ℕ) (w : Response)
    → is_informational code ≡ false
    → write_header code (write_header code w) ≡ write_header code w
unfolding write_header
write_header_twice code w h = elim (Option-cases w.sent) [
  | inl none_sent ↦ ground arith
  | inr (s, was_sent) ↦ ground arith
]

write-write_header : (b : List ℕ) (w : Response) → write b (write_header 200 w) ≡ write b w
unfolding write
write-write_header b w = rw (write_header_twice 200 w refl)

abbrev written : List ℕ → ResponseRecorder → ResponseRecorder
written b r = record r {
  response = (write b r.response).1;
  bytes_written = r.bytes_written + (write b r.response).0;
}

-- The size after a write to a writer that has sent its header.
written-Tracks :
    (b : List ℕ) (r : ResponseRecorder)
    → write_header 200 r.response ≡ r.response
    → Tracks r
    → Tracks (written b r)
unfolding write
written-Tracks b r settled t = rw settled (record {
  flag = t.flag;
  code = t.code;
  size = omega (arith, t.size, length-append r.response.body (accepted r.response.sent b));
})

note_write-written :
    (b : List ℕ) (r : ResponseRecorder) → note_write b r ≡ written b (note_header 200 r)
unfolding note_write note_header
note_write-written b r = ground arith

note_write-Tracks :
    (b : List ℕ) (r : ResponseRecorder) → Tracks r → Follows (note_write b r) (write b r.response).1
note_write-Tracks b r t =
    let (tracks, same) = note_header-Tracks 200 r refl t in
    let settled : write_header 200 (note_header 200 r).response ≡ (note_header 200 r).response =
      rw same (write_header_twice 200 r.response refl) in
    rw (note_write-written b r) (
      written-Tracks b (note_header 200 r) settled tracks,
      ap (λ w. (write b w).1) same ∙ ap (λ x. x.1) (write-write_header b r.response),
    )

note_step-Tracks :
    (s : Step) (r : ResponseRecorder)
    → is_final_step s ≡ true
    → Tracks r
    → Follows (note_step s r) (run_step s r.response)
unfolding note_step run_step
note_step-Tracks (sets name value) r h t =
    (record { flag = t.flag; code = t.code; size = t.size }, refl)
note_step-Tracks (sends code) r h t = note_header-Tracks code r (ground arith) t
note_step-Tracks (writes b) r h t = note_write-Tracks b r t

note_steps-Tracks :
    (ss : List Step) (r : ResponseRecorder)
    → AllFinal ss
    → Tracks r
    → Follows (note_steps ss r) (run_steps ss r.response)
unfolding note_steps run_steps
note_steps-Tracks [] r h t = (t, refl)
note_steps-Tracks (s ∷ ss) r (first, others) t =
    let (tracks, same) = note_step-Tracks s r first t in
    let (later, equal) = note_steps-Tracks ss (note_step s r) others tracks in
    (later, equal ∙ ap (run_steps ss) same)

-- The recorder does not change what the client gets, and records it truly. Whatever a handler does to its
-- writer, as long as it sends no informational status, the response is the same as without the
-- recorder, the recorded status is the one that the client gets (200 when none is sent), and the
-- recorded size is that of what the server has taken.
pub recorder-Accurate :
    (steps : List Step) (w : Response)
    → w.sent ≡ none
    → w.body ≡ []
    → AllFinal steps
    → let r = note_steps steps (new_response_recorder w) in
      let plain = run_steps steps w in
      (r.response ≡ plain)
      × (r.status_code ≡ status_of plain.sent)
      × (r.bytes_written ≡ length plain.body)
unfolding new_response_recorder status_of
recorder-Accurate steps w unsent empty final =
    let (t, same) = note_steps-Tracks steps (new_response_recorder w) final started in
    (same, t.code ∙ ap (λ v. status_of v.sent) same, t.size ∙ ap (λ v. length v.body) same)
  where
    started : Tracks (new_response_recorder w)
    started = record {
      flag = sym (ap is_sent unsent);
      code = sym (ap status_of unsent);
      size = sym (ap length empty);
    }

-- After an informational status that of the answer is lost: the client gets 200 for every later one.
pub informational_hides :
    (code later : ℕ) (w : Response)
    → is_informational code ≡ true
    → w.sent ≡ none
    → status_of (note_steps (sends code ∷ sends later ∷ []) (new_response_recorder w)).response.sent
      ≡ 200
unfolding note_steps note_step note_header new_response_recorder write_header status_of
informational_hides code later w early unsent = ground arith
