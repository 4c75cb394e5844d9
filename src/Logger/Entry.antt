-- ===== src/Logger/Entry.antt =====
-- What zap takes: levels (zapcore.Level), fields and lines.
use go_bank.Common.{ℕ, Bool, List, String, leb}
use go_bank.Common.Int.{ℤ}

pub data Level : Type 0 where
  debug info warn error dpanic panic fatal : Level

-- The numbers that zap gives to the levels, plus one.
abbrev pub rank : Level → ℕ
rank debug = 0
rank info = 1
rank warn = 2
rank error = 3
rank dpanic = 4
rank panic = 5
rank fatal = 6

-- `a >= b`
abbrev pub at_least : Level → Level → Bool
at_least a b = leb (rank b) (rank a)

-- The value of a field. `milliseconds` holds the span that `durMS` divides; `payload` is a message of a
-- call, which zap.Any encodes.
pub data Value : Type 0 where
  text : String → Value
  number : ℤ → Value
  flag : Bool → Value
  milliseconds : ℕ → Value
  span : ℤ → Value
  bytes : List ℕ → Value
  headers : List (String × String) → Value
  payload : String → Value

pub record Field : Type 0 where
  pub key : String
  pub value : Value

-- One entry that a logger hands to its core.
pub record Line : Type 0 where
  pub level : Level
  pub message : String
  pub fields : List Field

abbrev pub string_field : String → String → Field
string_field k s = record { key = k; value = text s }
