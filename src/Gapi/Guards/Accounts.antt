-- ===== src/Gapi/Guards/Accounts.antt =====
-- Who may see and change an account.
use go_bank.Common.{◌≡◌, sym, some, str_eq, not}
use go_bank.Common.Int.{ℤ}
use go_bank.Common.Lists.{find_row}
use go_bank.Token.Payload.{Payload}
use go_bank.Db.Models.{Account}
use go_bank.Db.World.{World, Tables, ok, >>=-eq-ok, pure-eq-ok, on_return}
use go_bank.Db.Query.Page.{account_is}
use go_bank.Db.Query.Accounts
use go_bank.Db.Query.Reads.{get_account_found}
use go_bank.Gapi.Server.{Context}
use go_bank.Gapi.Accounts.{
  PbAccount, not_found_or_internal, convert_account, authorize_account, get_account,
  validate_id_request,
}
use go_bank.Gapi.Guards.{after_reject, after_refuse_if, after_caller, after_or_else, same_text}

-- The caller is authenticated and owns the account.
pub record Owns (ctx : Context) (id : ℤ) (t : Tables) (a : Account) : Type 0 where
  pub caller : Payload
  pub authenticated : ctx.auth_payload ≡ some caller
  pub found : find_row (account_is id) t.accounts ≡ some a
  pub owner : a.owner ≡ caller.username

pub authorize_account-Owns :
    (ctx : Context) (id : ℤ) (w w' : World) {a : Account}
    → authorize_account ctx id w ≡ (ok a, w')
    → Owns ctx id w.tables a × (w'.tables ≡ w.tables)
unfolding authorize_account
authorize_account-Owns ctx id w w' {a} h =
    let read = Accounts.get_account id in
    let (b, v, got, h1) = after_or_else read not_found_or_internal _ w w' h in
    let (p, authenticated, h2) = after_caller ctx _ v w' h1 in
    let (allowed, done) = after_refuse_if (not (str_eq b.owner p.username)) _ _ v w' h2 in
    let (found, kept) = get_account_found id w v got in
    on_return (λ x u. Owns ctx id w.tables x × (u.tables ≡ w.tables)) done
      (
        record {
          caller = p;
          authenticated = authenticated;
          found = found;
          owner = same_text b.owner p.username allowed;
        },
        kept,
      )

-- GetAccount answers only the owner of the account, with the row that is stored.
pub get_account-Owns :
    (ctx : Context) (id : ℤ) (w w' : World) (rsp : PbAccount)
    → get_account ctx id w ≡ (ok rsp, w')
    → (a : Account) × Owns ctx id w.tables a × (rsp ≡ convert_account a)
unfolding get_account
get_account-Owns ctx id w w' rsp h =
    let (_, h1) = after_reject (validate_id_request id) _ w w' h in
    let (a, v, passed, done) = >>=-eq-ok (authorize_account ctx id) _ w w' h1 in
    (a, (authorize_account-Owns ctx id w v passed).0, sym (pure-eq-ok _ rsp v w' done).0)
