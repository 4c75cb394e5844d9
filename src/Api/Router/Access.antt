-- ===== src/Api/Router/Access.antt =====
-- What the router lets through, and to which handler.
use go_bank.Common.{◌≡◌, refl, sym, ◌∙◌, Bool, true, false, some, ◌⊎◌, inl, inr, Bool-cases}
use mathlib.Core.Path.{subst}
use go_bank.Token.Payload.{Payload}
use go_bank.Db.World.{World, Result, ok, err, pure, ◌>>=◌}
use go_bank.Api.Status.{HttpStatus, Handler, unauthorized}
use go_bank.Api.Server.{Server, GinContext}
use go_bank.Api.Accounts.{
  create_account, get_account, list_accounts, update_account, delete_account,
}
use go_bank.Api.Transfers.{create_transfer}
use go_bank.Api.Users.{create_user}
use go_bank.Api.Sessions.{login_user, renew_access_token}
use go_bank.Api.Middleware.Access.{Bears, auth_middleware_cases}
use go_bank.Api.Router.{
  Route, post_users, post_login, post_renew_access, post_accounts, get_accounts_id, get_accounts,
  put_accounts_id, delete_accounts_id, post_transfers, Body, user, login, renewed, account,
  accounts, deleted, transferred, is_public, run_route, serve,
}

-- The routes that need no token: to sign up, to log in and to renew a token.
abbrev pub needs_no_token : Route → Bool
needs_no_token (post_users body) = true
needs_no_token (post_login body) = true
needs_no_token (post_renew_access body) = true
needs_no_token (post_accounts body) = false
needs_no_token (get_accounts_id uri) = false
needs_no_token (get_accounts query) = false
needs_no_token (put_accounts_id uri body) = false
needs_no_token (delete_accounts_id uri) = false
needs_no_token (post_transfers body) = false

-- A request has come to what a handler made of it: the same error, or its answer as a body; in either case
-- in the world that the handler has left.
pub data Gives {A : Type 0} (h : Handler A) (show : A → Body) (w : World)
    (out : Result HttpStatus Body × World) : Type 0 where
  answered : (a : A) (v : World) → h w ≡ (ok a, v) → out ≡ (ok (show a), v) → Gives h show w out
  refused : (e : HttpStatus) (v : World) → h w ≡ (err e, v) → out ≡ (err e, v) → Gives h show w out

-- The handler of each route.
abbrev pub Handled : Server → Route → GinContext → World → Result HttpStatus Body × World → Type 0
Handled server (post_users body) ctx w out = Gives (create_user server body) user w out
Handled server (post_login body) ctx w out = Gives (login_user server ctx body) login w out
Handled server (post_renew_access body) ctx w out =
    Gives (renew_access_token server body) renewed w out
Handled server (post_accounts body) ctx w out = Gives (create_account server ctx body) account w out
Handled server (get_accounts_id uri) ctx w out = Gives (get_account server ctx uri) account w out
Handled server (get_accounts query) ctx w out =
    Gives (list_accounts server ctx query) accounts w out
Handled server (put_accounts_id uri body) ctx w out =
    Gives (update_account server ctx uri body) account w out
Handled server (delete_accounts_id uri) ctx w out =
    Gives (delete_account server ctx uri) (λ _. deleted) w out
Handled server (post_transfers body) ctx w out =
    Gives (create_transfer server ctx body) transferred w out

given :
    {A : Type 0} (h : Handler A) (show : A → Body) (w : World)
    → Gives h show w ((h >>= λ a. pure (show a)) w)
given {A} h show w = go (h w).0 (h w).1 refl
  where
    go :
        (r : Result HttpStatus A) (v : World)
        → h w ≡ (r, v)
        → Gives h show w ((h >>= λ a. pure (show a)) w)
    go (ok a) v e = answered a v e (rw e refl)
    go (err x) v e = refused x v e (rw e refl)

run_route-Handled :
    (server : Server) (route : Route) (ctx : GinContext) (w : World)
    → Handled server route ctx w (run_route server route ctx w)
unfolding run_route
run_route-Handled server (post_users body) ctx w = given (create_user server body) user w
run_route-Handled server (post_login body) ctx w = given (login_user server ctx body) login w
run_route-Handled server (post_renew_access body) ctx w =
    given (renew_access_token server body) renewed w
run_route-Handled server (post_accounts body) ctx w =
    given (create_account server ctx body) account w
run_route-Handled server (get_accounts_id uri) ctx w = given (get_account server ctx uri) account w
run_route-Handled server (get_accounts query) ctx w =
    given (list_accounts server ctx query) accounts w
run_route-Handled server (put_accounts_id uri body) ctx w =
    given (update_account server ctx uri body) account w
run_route-Handled server (delete_accounts_id uri) ctx w =
    given (delete_account server ctx uri) (λ _. deleted) w
run_route-Handled server (post_transfers body) ctx w =
    given (create_transfer server ctx body) transferred w

public_routes : (route : Route) → is_public route ≡ needs_no_token route
unfolding is_public
public_routes (post_users body) = refl
public_routes _ = refl

-- What a request comes to.
abbrev pub Outcome : Server → GinContext → Route → World → Result HttpStatus Body × World → Type 0
Outcome server ctx route w out =
    (needs_no_token route ≡ true) × Handled server route ctx w out
    ⊎ (needs_no_token route ≡ false) × (out ≡ (err unauthorized, w))
    ⊎ (needs_no_token route ≡ false)
      × (p : Payload) × Bears server ctx.authorization p w
      × Handled server route (record ctx { payload = some p }) w out

-- Every request that has found its route goes one of three ways. To sign up, to log in or to renew a token,
-- it goes to the handler of its route. For any other route it is answered with Unauthorized and nothing
-- at all changes, or it bears a token that the maker verifies, and then goes to the handler of its
-- route with the payload of that token, whatever payload the context held before. A request that has
-- gone to a handler is answered with the error or the result of that handler, in the world that it
-- has left.
pub serve_cases :
    (server : Server) (ctx : GinContext) (route : Route) (w : World)
    → Outcome server ctx route w (serve server ctx route w)
unfolding serve
serve_cases server ctx route w = elim (Bool-cases (is_public route)) [
  | inl free ↦
      inl (sym (public_routes route) ∙ free, rw free (run_route-Handled server route ctx w))
  | inr closed ↦
      let guarded = sym (public_routes route) ∙ closed in
      elim (auth_middleware_cases server ctx (run_route server route) w) [
        | inl refused_all ↦ inr (inl (guarded, rw closed refused_all))
        | inr (p, bears, runs) ↦
            let context = record ctx { payload = some p } in
            inr (
              inr (
                guarded,
                p,
                bears,
                rw closed (
                    subst (Handled server route context w) (sym runs)
                      (run_route-Handled server route context w)),
              ))
      ]
]
