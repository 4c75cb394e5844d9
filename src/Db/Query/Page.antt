-- ===== src/Db/Query/Page.antt =====
-- What the statements share: LIMIT and OFFSET, the row that a `:one` statement returns, and the
-- conditions on keys.
use go_bank.Common.{Option, none, some, List, if◌then◌else◌, String, Bool, str_eq}
use go_bank.Common.Int.{ℤ, pos, pos_part, ltb_ℤ, eq_ℤ}
use go_bank.Common.Lists.{take, drop}
use go_bank.Db.Models.{Account, Transfer, Entry, User}
use go_bank.Db.World.{Result, ok, err, DbError, pg_error, no_rows, invalid_limit, invalid_offset}

-- A negative OFFSET or LIMIT is an error.
unfoldable pub page_rows : {A : Type 0} → (limit offset : ℤ) → List A → Result DbError (List A)
page_rows limit offset rows =
    if ltb_ℤ offset (pos 0)
    then err (pg_error invalid_offset)
    else if ltb_ℤ limit (pos 0)
    then err (pg_error invalid_limit)
    else ok (take (pos_part limit) (drop (pos_part offset) rows))

-- `row.Scan` of a query that may return no row.
abbrev pub one_row : {A : Type 0} → Option A → Result DbError A
one_row none = err no_rows
one_row (some a) = ok a

abbrev pub account_is : ℤ → Account → Bool
account_is id a = eq_ℤ a.id id

abbrev pub transfer_is : ℤ → Transfer → Bool
transfer_is id t = eq_ℤ t.id id

abbrev pub entry_is : ℤ → Entry → Bool
entry_is id e = eq_ℤ e.id id

abbrev pub user_is : String → User → Bool
user_is username u = str_eq u.username username
