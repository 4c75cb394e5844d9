-- ===== src/Util/Currencies.antt =====
-- util/currencies.go.
use go_bank.Common.{Bool, ◌||◌, String, str_eq}

abbrev pub usd : String
usd = "USD"

abbrev pub eur : String
eur = "EUR"

abbrev pub egp : String
egp = "EGP"

unfoldable pub is_supported_currency : String → Bool
is_supported_currency currency = str_eq currency usd || str_eq currency eur || str_eq currency egp
