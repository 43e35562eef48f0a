-- ===== src/Auth/Laws.antt =====
-- What the provider of managerServer/frontend/src/contexts/AuthContext.tsx guarantees.
use Prim.Native.String.{String}
use waddle_perf.Common.{◌≡◌, ◌≢◌, refl, ap, List, true, false, none, some}
use waddle_perf.Types.{User}
use waddle_perf.Http.{
  Body, Reply, Request, Client, Outcome, resolved, rejected, pending, Run, authorize,
}
use waddle_perf.Http.Storage.{truthy}
use waddle_perf.Http.Interceptor.{has_refresh}
use waddle_perf.Http.Keeps.{exchange-storage}
use waddle_perf.ManagerApi
use waddle_perf.Auth.{
  Json, AuthState, initial, restore, store_login, after_login, login, after_logout, logout,
}

-- The body of an outcome that has one.
abbrev body_of : Body → Outcome → Body
body_of d (resolved b) = b
body_of d (rejected f) = d
body_of d pending = d

after_login_resolved :
    (j : Json) (s : AuthState) (x : Run) (body : Body)
    → (after_login j s x).1.1 ≡ resolved body
    → (x.1 ≡ resolved body)
      × (after_login j s x ≡ (
        record s { token = body.token; user = body.user },
        (store_login j body x.0, resolved body, x.2),
      ))
unfolding after_login
after_login_resolved j s (c, resolved b, rest) body h =
    let same : b ≡ body = ap (body_of b) h in (h, rw same)
after_login_resolved j s (c, rejected f, rest) body h = cc
after_login_resolved j s (c, pending, rest) body h = cc

module _ (j : Json) (u : User) (t : String) (json : j.parse (j.stringify u) ≡ some u)
    (written : truthy (some (j.stringify u)) ≡ true) (given : truthy (some t) ≡ true) where
  -- After a login that returned a user and a token that is not empty, a reload of the page restores
  -- both, where the user's JSON is not empty and reads back as the user.
  pub restore-login :
      (s : AuthState) (c : Client) (replies : List Reply) (body : Body)
      → (login j s c replies).1.1 ≡ resolved body
      → body.user ≡ some u
      → body.token ≡ some t
      → restore j (login j s c replies).1.0 initial
        ≡ some (record { user = some u; token = some t; is_loading = false })
  unfolding login restore
  restore-login s c replies body h eu et =
      let (ok, same) = after_login_resolved j s (ManagerApi.login c replies) body h in
      rw (same, eu, et, written, given, json)

-- No sequence of replies lets a login of the provider store an access token for the API client: where
-- neither an access nor a refresh token was stored before, every request after a login that succeeds
-- goes out as it is, without an Authorization header of the client.
login-authorize :
    (j : Json) (s : AuthState) (c : Client) (replies : List Reply) (body : Body) (r : Request)
    → c.storage "access_token" ≡ none
    → c.storage "refresh_token" ≡ none
    → (login j s c replies).1.1 ≡ resolved body
    → authorize (login j s c replies).1.0 r ≡ r
unfolding login ManagerApi.login ManagerApi.send
login-authorize j s c replies body r na nr h =
    let x = ManagerApi.login c replies in
    let (ok, same) = after_login_resolved j s x body h in
    let no_refresh : has_refresh c ≡ false = rw nr in
    let kept : x.0.storage ≡ c.storage =
      exchange-storage ManagerApi.give_up _ c replies no_refresh (rw ok) in
    rw (same, kept, na)

-- The provider knows nobody, and its two entries of the storage are gone.
pub record IsForgotten (x : AuthState × Run) : Type 0 where
  pub no_user : x.0.user ≡ none
  pub no_token : x.0.token ≡ none
  pub no_stored_token : x.1.0.storage "auth_token" ≡ none
  pub no_stored_user : x.1.0.storage "user" ≡ none

after_logout-IsForgotten :
    (s : AuthState) (x : Run) → (after_logout s x).1.1 ≢ pending → IsForgotten (after_logout s x)
unfolding after_logout
after_logout-IsForgotten s (c, resolved body, rest) h = record {
  no_user = refl;
  no_token = refl;
  no_stored_token = refl;
  no_stored_user = refl;
}
after_logout-IsForgotten s (c, rejected f, rest) h = record {
  no_user = refl;
  no_token = refl;
  no_stored_token = refl;
  no_stored_user = refl;
}
after_logout-IsForgotten s (c, pending, rest) h = absurd (h refl)

-- A logout that the network has answered, with success or with any error, signs the user out: in the
-- state and in the two entries of the storage that the provider restores from.
pub logout-IsForgotten :
    (s : AuthState) (c : Client) (replies : List Reply)
    → (logout s c replies).1.1 ≢ pending
    → IsForgotten (logout s c replies)
unfolding logout
logout-IsForgotten s c replies = after_logout-IsForgotten s (ManagerApi.logout c replies)
