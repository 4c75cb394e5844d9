-- ===== src/Tests/Books.antt =====
-- A sequence of calls to the gRPC server of the small bank.
use go_bank.Common.{◌≡◌, ◌⊎◌, refl, none, some, List, [], ◌∷◌, ℕ, arith}
use go_bank.Common.Int.{ℤ, pos, negsuc, ◌+ℤ◌}
use go_bank.Util.Float.{float_to_cents}
use go_bank.Db.Models.{Entry}
use go_bank.Gapi.Server.{Context}
use go_bank.Process.Rpc.{Call, login_user_call, create_transfer_call, delete_account_call}
use go_bank.Process.Rpc.Books.{linked, IsBalanced}
use go_bank.Process.Rpc.Balance.{Arrival, AreExact, serve_calls, serve_calls-IsBalanced}
use go_bank.Gapi.Custody.{Kept}
use go_bank.Process.Rpc.Custody.{AreUpward, Acts, serve_calls-Kept}
use go_bank.Tests.Data.{bank, bob_account, server, to_bob}
use go_bank.Tests.Tokens.{with_header}
use go_bank.Tests.Logs.{at_start, log, views}

abbrev without_header : Context
without_header = record with_header { metadata = none }

abbrev arrival : (time : ℕ) → Context → Call → Arrival
arrival time ctx call = record { time = time; ctx = ctx; call = call }

-- A login with a wrong password, a transfer of 3.00, the same without a token, and the deletion of the source.
abbrev arrivals : List Arrival
arrivals =
    arrival 1100 without_header (login_user_call "alice" "wrong")
    ∷ arrival 1200 with_header (create_transfer_call (to_bob 4613937818241073152))
    ∷ arrival 1300 without_header (create_transfer_call (to_bob 4613937818241073152))
    ∷ arrival 1400 with_header (delete_account_call (pos 1))
    ∷ []

arrivals-AreExact : AreExact server arrivals
unfolding float_to_cents
arrivals-AreExact = (tt, (cc, (cc, (tt, tt))))

empty-IsBalanced : IsBalanced bank.tables.entries
empty-IsBalanced = record { cancel = λ id. refl }

abbrev entry_of : (id account_id amount : ℤ) → Entry
entry_of id account_id amount = record {
  id = id;
  account_id = account_id;
  amount = amount;
  transfer_id = some (pos 1);
  created_at = 1200;
}

both_linked :
    linked (pos 1) (entry_of (pos 1) (pos 1) (negsuc 299) ∷ entry_of (pos 2) (pos 2) (pos 300) ∷ [])
    ≡ pos 0
unfolding ◌+ℤ◌
both_linked = refl

serve_calls-IsBalanced_example :
    IsBalanced (serve_calls at_start log views server arrivals bank).tables.entries
serve_calls-IsBalanced_example =
    serve_calls-IsBalanced at_start log views server arrivals bank arrivals-AreExact
      empty-IsBalanced

arrivals-AreUpward : AreUpward server arrivals
unfolding float_to_cents
arrivals-AreUpward = (tt, (omega arith, (omega arith, (tt, tt))))

-- Bob's account, in whose name none of the calls is made.
serve_calls-Kept_example :
    Kept (pos 2) bob_account (serve_calls at_start log views server arrivals bank).tables
    ⊎ Acts at_start log views server "bob" arrivals bank
serve_calls-Kept_example =
    serve_calls-Kept at_start log views server (pos 2) bob_account arrivals bank arrivals-AreUpward
      refl
