-- ===== src/Logger/Http/Options.antt =====
-- logger/http.go: the options of the middleware and their defaults. MaxBodyLogSize is an int64 that is not
-- negative; zero means the default.
use go_bank.Common.{ℕ, Bool, ◌||◌, Option, List, String, if◌then◌else◌, ltb, str_eq}
use go_bank.Common.Lists.{has_row}
use go_bank.Common.Text.Search.{to_lower}
use go_bank.Logger.Entry.{Level}
use go_bank.Logger.Core.{Logger}
use go_bank.Web.{Request}

pub record HttpLogOptions : Type 0 where
  pub logger : Option Logger
  pub skip_paths : List String
  pub skip_path_prefixes : List String
  pub decider_func : Option (ℕ → ℕ → Request → Level × Bool)
  pub request_id_header : String
  pub trace_id_header : String
  pub log_request_body : Bool
  pub max_body_log_size : ℕ
  pub sensitive_headers : List String
  pub observability_paths : List String

unfoldable pub request_id_header : HttpLogOptions → String
request_id_header o = if str_eq o.request_id_header "" then "X-Request-Id" else o.request_id_header

unfoldable pub trace_id_header : HttpLogOptions → String
trace_id_header o = if str_eq o.trace_id_header "" then "X-Trace-Id" else o.trace_id_header

unfoldable pub max_body_size : HttpLogOptions → ℕ
max_body_size o = if ltb 0 o.max_body_log_size then o.max_body_log_size else 4096

-- `sensitive[strings.ToLower(name)]` for the map of sensitiveHeaders.
unfoldable pub is_sensitive : HttpLogOptions → (name : String) → Bool
unfolding to_lower
is_sensitive o name =
    let lower = to_lower name in
    str_eq lower "authorization"
    || str_eq lower "cookie"
    || str_eq lower "set-cookie"
    || has_row (λ h. str_eq lower (to_lower h)) o.sensitive_headers
