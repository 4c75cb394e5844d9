-- ===== src/Util/Random.antt =====
-- util/random.go: the generators. `rand.Intn(n)` is the remainder of a random number by n.
use Prim.Native.String
use go_bank.Common.{ℕ, zero, suc, ◌+◌, ◌-◌, ◌%◌, List, [], ◌∷◌, String}
use go_bank.Common.Text.{single}
use go_bank.Common.Text.Search.{to_lower}
use go_bank.Db.World.{Action, pure, draw, ◌>>=◌}
use go_bank.Worker.Process.{random_string}

abbrev first_names : List String
first_names =
    "ali" ∷ "maria" ∷ "sarah" ∷ "mike" ∷ "jeo" ∷ "emma" ∷ "marmosh" ∷ "menna" ∷ "shahd" ∷ "nashi"
    ∷ []

abbrev last_names : List String
last_names = "ahmed" ∷ "alyapany" ∷ "brown" ∷ "saif" ∷ "doe" ∷ "miller" ∷ "salah" ∷ "emam" ∷ []

-- `names[i]` for an index in range.
abbrev nth : List String → ℕ → String
nth [] i = ""
nth (x ∷ xs) zero = x
nth (x ∷ xs) (suc i) = nth xs i

unfoldable pub random_owner : {E : Type 0} → Action E String
unfolding random_string to_lower
random_owner = do
  first ← draw
  last ← draw
  number ← draw
  suffix ← random_string 3
  pure (
      to_lower (
        String.◌++◌ (nth first_names (first % 10)) (
          String.◌++◌ "_" (
            String.◌++◌ (nth last_names (last % 8)) (
              String.◌++◌ "_" (
                String.◌++◌ suffix (single (String.char_at "0123456789" (number % 1000 % 10)))))))))

unfoldable pub random_currency : {E : Type 0} → Action E String
random_currency = do
  i ← draw
  pure (nth ("USD" ∷ "USD" ∷ "USD" ∷ "EUR" ∷ "EUR" ∷ "EGP" ∷ []) (i % 6))

unfoldable pub random_money : {E : Type 0} → Action E ℕ
random_money = do n ← draw; pure (1000 + n % (5000000 - 1000))

unfoldable pub random_email : {E : Type 0} → Action E String
unfolding random_owner
random_email = do owner ← random_owner; pure (String.◌++◌ owner "@email.com")
