-- ===== src/Logger/Recorder.antt =====
-- logger/http.go: responseRecorder, which wraps the writer of a handler to learn the status and the size.
pub mod Accuracy
use go_bank.Common.{ℕ, ◌+◌, Bool, true, false, List, [], ◌∷◌, if◌then◌else◌}
use go_bank.Web.{Response, Step, sets, sends, writes, header_set, write_header, write}

pub record ResponseRecorder : Type 0 where
  pub response : Response
  pub status_code : ℕ
  pub bytes_written : ℕ
  pub wrote_header : Bool

unfoldable pub new_response_recorder : Response → ResponseRecorder
new_response_recorder w = record {
  response = w;
  status_code = 200;
  bytes_written = 0;
  wrote_header = false;
}

unfoldable pub note_header : ℕ → ResponseRecorder → ResponseRecorder
note_header code r = if r.wrote_header then r else record r {
  status_code = code;
  wrote_header = true;
  response = write_header code r.response;
}

unfoldable pub note_write : List ℕ → ResponseRecorder → ResponseRecorder
unfolding note_header
note_write b r =
    let r' = if r.wrote_header then r else note_header 200 r in
    let (n, response) = write b r'.response in
    record r' { response = response; bytes_written = r'.bytes_written + n }

-- A step of a handler that has been given the recorder; `Header()` is the writer's own.
unfoldable pub note_step : Step → ResponseRecorder → ResponseRecorder
unfolding note_header note_write
note_step (sets name value) r = record r {
  response = record (r.response) { header = header_set r.response.header name value };
}
note_step (sends code) r = note_header code r
note_step (writes b) r = note_write b r

unfoldable pub note_steps : List Step → ResponseRecorder → ResponseRecorder
unfolding note_step
note_steps [] r = r
note_steps (s ∷ ss) r = note_steps ss (note_step s r)
