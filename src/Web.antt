-- ===== src/Web.antt =====
-- What the program uses of net/http: requests, headers and the response writer of the server. Names of
-- headers are compared as http.Header does, without regard to case. A handler acts on the writer by a
-- sequence of steps.
pub mod Headers
pub mod Head
use go_bank.Common.{
  ℕ, ◌+◌, Bool, true, false, not, ◌&&◌, ◌||◌, Option, none, some, List, [], ◌∷◌, ◌++◌, String,
  if◌then◌else◌, leb, ◌==◌, str_eq,
}
use go_bank.Common.Int.{ℤ}
use go_bank.Common.Lists.{length}
use go_bank.Common.Text.Search.{to_lower}
use go_bank.Db.World.{World}
use go_bank.Logger.Values.{Values}

abbrev pub same_name : String → String → Bool
same_name a b = str_eq (to_lower a) (to_lower b)

abbrev first_value : List String → String
first_value [] = ""
first_value (v ∷ vs) = v

-- `Header.Get` of a request.
unfoldable pub header_get : List (String × List String) → (name : String) → String
header_get [] name = ""
header_get ((k, values) ∷ hs) name =
    let rest = header_get hs name in if same_name k name then first_value values else rest

-- `Header.Set` of a response.
unfoldable pub header_set : List (String × String) → (name value : String) → List (String × String)
header_set [] name value = (name, value) ∷ []
header_set ((k, v) ∷ hs) name value =
    let rest = header_set hs name value in
    if same_name k name then (k, value) ∷ hs else (k, v) ∷ rest

-- The value of a header of a response, if it is set.
unfoldable pub header_lookup : List (String × String) → (name : String) → Option String
header_lookup [] name = none
header_lookup ((k, v) ∷ hs) name =
    let rest = header_lookup hs name in if same_name k name then some v else rest

pub record Request : Type 0 where
  pub method : String
  pub path : String
  pub header : List (String × List String)
  pub proto : String
  pub host : String
  pub remote_addr : String
  pub content_length : ℤ
  pub body : Option (List ℕ)
  pub values : Values

-- `header` is the map that a handler changes, `sent` the status with the header as it was then, `early`
-- the informational statuses, and `body` the bytes that the server has taken. `is_head` says whether
-- the request is a HEAD. A declared Content-Length is not looked at.
pub record Response : Type 0 where
  pub is_head : Bool
  pub header : List (String × String)
  pub early : List ℕ
  pub sent : Option (ℕ × List (String × String))
  pub body : List ℕ

-- The writer that the server makes for a request.
abbrev pub fresh : Request → Response
fresh r = record {
  is_head = str_eq r.method "HEAD";
  header = [];
  early = [];
  sent = none;
  body = [];
}

-- The body that the client gets: the server drops what is written in answer to a HEAD, though `Write` returns
-- its length.
unfoldable pub received : Response → List ℕ
received r = if r.is_head then [] else r.body

-- A status of 1xx but 101 is sent at once, and another follows it.
abbrev pub is_informational : ℕ → Bool
is_informational code = leb 100 code && leb code 199 && not (code == 101)

-- bodyAllowedForStatus
abbrev pub body_allowed : ℕ → Bool
body_allowed code = not ((leb 100 code && leb code 199) || code == 204 || code == 304)

abbrev is_none : {A : Type 0} → Option A → Bool
is_none none = true
is_none (some a) = false

-- `WriteHeader` of the server's writer, for a status that it accepts.
unfoldable pub write_header : ℕ → Response → Response
write_header code r =
    if is_none r.sent
    then (if is_informational code
        then record r { early = r.early ++ code ∷ [] }
        else record r { sent = some (code, r.header) })
    else r

-- The bytes of a write that the server takes: none where the status has no body.
abbrev pub accepted : Option (ℕ × List (String × String)) → List ℕ → List ℕ
accepted none b = b
accepted (some (code, h)) b = if body_allowed code then b else []

-- `Write` of the server's writer: the number of bytes written, and what it leaves.
unfoldable pub write : List ℕ → Response → ℕ × Response
unfolding write_header
write b r =
    let r' = write_header 200 r in
    (length (accepted r'.sent b), record r' { body = r'.body ++ accepted r'.sent b })

-- A step of a handler on its writer.
pub data Step : Type 0 where
  sets : (name value : String) → Step
  sends : (code : ℕ) → Step
  writes : List ℕ → Step

unfoldable pub run_step : Step → Response → Response
unfolding write_header write
run_step (sets name value) r = record r { header = header_set r.header name value }
run_step (sends code) r = write_header code r
run_step (writes b) r = (write b r).1

unfoldable pub run_steps : List Step → Response → Response
unfolding run_step
run_steps [] r = r
run_steps (s ∷ ss) r = run_steps ss (run_step s r)

-- The status that the client gets: the one sent, or 200 when the handler has returned without one.
unfoldable pub status_of : Option (ℕ × List (String × String)) → ℕ
status_of none = 200
status_of (some (code, h)) = code

-- A handler: what it does to its writer for a request, and the world that it leaves.
abbrev pub HttpHandler : Type 0
HttpHandler = Request → World → List Step × World
