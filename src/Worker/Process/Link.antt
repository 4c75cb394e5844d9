-- ===== src/Worker/Process/Link.antt =====
-- The mail of a task shows the link.
use Prim.Native.String
use Prim.Native.String.{String}
use Prim.Native.String.append.{nil, cons}
use go_bank.Common.{◌≡◌, ap, sym, ◌∙◌}
use go_bank.Common.Int.{ℤ}
use go_bank.Common.Text.{decimal}
use go_bank.Worker.Process.{verify_url, content}

append_assoc : (a b c : String) → String.◌++◌ a (String.◌++◌ b c) ≡ String.◌++◌ (String.◌++◌ a b) c
append_assoc String.[] b c = nil (String.◌++◌ b c) ∙ ap (λ x. String.◌++◌ x c) (sym (nil b))
append_assoc (String.◌∷◌ x a) b c =
    cons x a (String.◌++◌ b c)
    ∙ ap (String.◌∷◌ x) (append_assoc a b c)
    ∙ sym (cons x (String.◌++◌ a b) c)
    ∙ ap (λ y. String.◌++◌ y c) (sym (cons x a b))

-- The link of a code, between two texts.
abbrev pub Shows : (base_url : String) (id : ℤ) (code text : String) → Type 0
Shows base_url id code text =
    (before after : String) × (text
      ≡ String.◌++◌ before (
          String.◌++◌
            (String.◌++◌ base_url (
              String.◌++◌ "/verify-email?email_id="
                (String.◌++◌ (decimal id) (String.◌++◌ "&secret_code=" code))))
            after))

pub content-Shows :
    (name base_url : String) (id : ℤ) (code : String)
    → Shows base_url id code (content name (verify_url base_url id code))
unfolding content verify_url
content-Shows name base_url id code =
    (_, _, ap (String.◌++◌ "Hi ") (append_assoc name _ _) ∙ append_assoc "Hi " _ _)
