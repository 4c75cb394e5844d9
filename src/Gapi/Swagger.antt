-- ===== src/Gapi/Swagger.antt =====
-- gapi/swagger.go. The embedded document, its decoding by encoding/json and the text of the page are
-- parameters. The tagline is cut after 120 bytes, which is exact where no character lies across the cut.
use Prim.Native.String
use go_bank.Common.{ℕ, Option, none, some, List, [], ◌∷◌, String, if◌then◌else◌, ltb, len, str_eq}
use go_bank.Common.Text.Search.{before_first}
use go_bank.Web.{HttpHandler, sets, writes}

pub record SwaggerMeta : Type 0 where
  pub title : String
  pub version : String
  pub description : String

pub record SwaggerPage : Type 0 where
  pub swagger_spec : List ℕ
  pub unmarshal : SwaggerMeta → SwaggerMeta
  pub html : SwaggerMeta → (tagline : String) → List ℕ

-- Members that the document does not have keep their defaults.
unfoldable pub parse_swagger_meta : SwaggerPage → SwaggerMeta
parse_swagger_meta page =
    page.unmarshal (record { title = "GoBank API"; version = "1.0.0"; description = "" })

-- The first line, unless it is empty.
abbrev first_line : Option String → String → String
first_line none whole = whole
first_line (some line) whole = if str_eq line "" then whole else line

unfoldable pub tagline_of : SwaggerMeta → String
unfolding before_first
tagline_of meta =
    let line = first_line (before_first meta.description b'\n') meta.description in
    if ltb 120 (len line) then String.◌++◌ (String.slice line 0 120) "…" else line

unfoldable pub build_swagger_ui : SwaggerPage → SwaggerMeta → List ℕ
unfolding tagline_of
build_swagger_ui page meta = page.html meta (tagline_of meta)

unfoldable pub swagger_handler : SwaggerPage → HttpHandler
unfolding parse_swagger_meta build_swagger_ui
swagger_handler page r w =
    if str_eq r.path "/swagger/doc.json"
    then (
      sets "Content-Type" "application/json"
          ∷ sets "Cache-Control" "no-cache"
          ∷ writes page.swagger_spec
          ∷ [],
      w,
    )
    else (
      sets "Content-Type" "text/html; charset=utf-8"
          ∷ sets "Cache-Control" "no-cache"
          ∷ writes (build_swagger_ui page (parse_swagger_meta page))
          ∷ [],
      w,
    )
