-- ===== src/Api/Binding.antt =====
-- The binding of requests. Gin decodes a body, a path or a query into the request's struct, with the
-- zero value for what is missing, and hands it to go-playground/validator, which tests the tags of the
-- fields. Both are third-party code: a request is what the decoding gives, `none` if it fails, and
-- the tests of the tags are a parameter.
use go_bank.Common.{ℕ, ◌≡◌, Bool, true, false, not, ◌&&◌, Option, none, some, String, str_eq}
use go_bank.Common.Int.{ℤ, pos, leb_ℤ, eq_ℤ}
use go_bank.Util.Float.{Float64, is_zero, le_zero, lt_zero, is_nan}
use go_bank.Util.Currencies.{is_supported_currency}
use go_bank.Db.World.{pure, fail}
use go_bank.Api.Status.{Handler, bad_request}

pub record Validator : Type 0 where
  pub required_text : String → Bool
  pub required_int : ℤ → Bool
  pub required_float : Float64 → Bool
  pub alphanum : String → Bool
  pub email : String → Bool
  pub min_text : (bound : ℕ) → String → Bool
  pub min_int : (bound value : ℤ) → Bool
  pub max_int : (bound value : ℤ) → Bool
  pub gt_zero : Float64 → Bool
  pub gte_zero : Float64 → Bool

-- What the documentation of the validator says of the tags: `required` refuses the zero value, and
-- the others compare. No comparison with a NaN holds.
pub record IsDocumented (v : Validator) : Type 0 where
  pub required_text : (s : String) → v.required_text s ≡ not (str_eq s "")
  pub required_int : (n : ℤ) → v.required_int n ≡ not (eq_ℤ n (pos 0))
  pub required_float : (x : Float64) → v.required_float x ≡ not (is_zero x)
  pub min_int : (bound value : ℤ) → v.min_int bound value ≡ leb_ℤ bound value
  pub max_int : (bound value : ℤ) → v.max_int bound value ≡ leb_ℤ value bound
  pub gt_zero : (x : Float64) → v.gt_zero x ≡ (not (is_nan x) && not (le_zero x))
  pub gte_zero : (x : Float64) → v.gte_zero x ≡ (not (is_nan x) && not (lt_zero x))

-- The registered tag `currency` (api/validator.go); a field of the tag is a string here.
unfoldable pub valid_currency : String → Bool
valid_currency currency = is_supported_currency currency

-- `if err := ctx.ShouldBind…(&req); err != nil { ctx.JSON(http.StatusBadRequest, …); return }`
abbrev pub bind_if : {R : Type 0} → R → Bool → Handler R
bind_if req true = pure req
bind_if req false = fail bad_request

abbrev pub should_bind : {R : Type 0} → Option R → (R → Bool) → Handler R
should_bind none test = fail bad_request
should_bind (some req) test = bind_if req (test req)
