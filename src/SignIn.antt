-- ===== src/SignIn.antt =====
-- The login page managerServer/frontend/src/pages/Login.tsx: what it does when the form of the
-- component library reports a success. The form itself, its request included, is the library's.
use Prim.Native.String.{String}
use waddle_perf.Common.{
  ℕ, List, [], ◌∷◌, ◌≡◌, ◌⊎◌, inl, inr, Bool-cases, ap, refl, true, false, Option, none, some,
  arith,
}
use waddle_perf.Js.Strings.{codes, includes, starts_with}
use waddle_perf.Types.{User}
use waddle_perf.Http.{Body, Reply, reply, Request, Client, Outcome, Run, log}
use waddle_perf.Http.Interceptor.{exchange}
use waddle_perf.ManagerApi.{send, give_up, on_login_page}
use waddle_perf.ManagerApi.Calls.{ApiCall, request_of, make}
use waddle_perf.Http.Storage.{set_item, truthy}
use waddle_perf.Auth.{Json, AuthState, is_authenticated, initial, restore}
use waddle_perf.Routes.{login, dashboard, page, protected_route, route, follow, landing, rendered}
use waddle_perf.Routes.Laws.{follow-login}

-- `response.token || ''`
abbrev pub token_or_empty : Option String → String
token_or_empty none = ""
token_or_empty (some t) = t

-- `JSON.stringify(response.user || {})`
abbrev pub user_or_empty : Json → Option User → String
user_or_empty j none = "{}"
user_or_empty j (some u) = j.stringify u

-- The browser when `onSuccess` returns; the router has not rendered the new path yet. The context's
-- `login` is not called.
unfoldable pub on_success : Json → Body → Client → Client
on_success j response c = record c {
  storage =
      set_item "user" (user_or_empty j response.user)
        (set_item "auth_token" (token_or_empty response.token) c.storage);
  location = "/dashboard";
}

follow-dashboard :
    (s : AuthState)
    → s.is_loading ≡ false
    → is_authenticated s ≡ true
    → follow 2 s "/dashboard" ≡ page dashboard
unfolding follow route protected_route
follow-dashboard s l a = ground arith

abbrev pub reloaded_state : User → String → AuthState
reloaded_state u t = record { user = some u; token = some t; is_loading = false }

-- What the manager shows behind a login: `s` is the context's state, `c` the browser when `onSuccess`
-- returns.
pub record SignedIn (j : Json) (u : User) (t : String) (s : AuthState) (c : Client) : Type 0 where
  pub at_once : follow 2 s c.location ≡ page login
  pub at_login : (rendered s c).location ≡ "/login"
  pub restored : restore j (rendered s c) initial ≡ some (reloaded_state u t)
  pub reloaded : follow 2 (reloaded_state u t) (rendered s c).location ≡ page login
  pub opened : follow 2 (reloaded_state u t) "/dashboard" ≡ page dashboard

landing-signed_out :
    (s : AuthState)
    → s.is_loading ≡ false
    → is_authenticated s ≡ false
    → landing 2 s "/dashboard" ≡ "/login"
unfolding route protected_route
landing-signed_out s l a = ground arith

-- Behind a successful login of a signed-out user, the login page's way to the dashboard leads back to
-- the login page and its path, since the context still has no user. A reload restores the context with
-- the user and the token of the answer, but shows the login page again, whose path it has; the
-- dashboard is shown when its path is opened. The condition is that `JSON.parse` reads what
-- `JSON.stringify` wrote of the user, and that neither that text nor the token is empty.
pub on_success-SignedIn :
    (j : Json) (response : Body) (u : User) (t : String) (s : AuthState) (c : Client)
    → j.parse (j.stringify u) ≡ some u
    → truthy (some (j.stringify u)) ≡ true
    → truthy (some t) ≡ true
    → response.user ≡ some u
    → response.token ≡ some t
    → s.is_loading ≡ false
    → is_authenticated s ≡ false
    → SignedIn j u t s (on_success j response c)
unfolding on_success restore follow route
on_success-SignedIn j response u t s c read text token eu et l a =
    let back = landing-signed_out s l a in
    record {
      at_once = follow-login s "/dashboard" l a;
      at_login = back;
      restored = rw (eu, et, token, text, read) refl;
      reloaded = ap (follow 2 (reloaded_state u t)) back;
      opened = follow-dashboard (reloaded_state u t) refl (rw token refl);
    }

-- How the first call behind a login went that the server refused.
pub record SentAway (r : Request) (before : List Request) (ran : Run) : Type 0 where
  pub asked : ran.0.sent ≡ r ∷ before
  pub no_authorization : r.authorization ≡ none
  pub no_user : ran.0.storage "user" ≡ none
  pub at_login : ran.0.location ≡ "/login"

give_up-at_login :
    (c : Client)
    → (c.location ≡ "/login") ⊎ (on_login_page c ≡ false)
    → (give_up c).location ≡ "/login"
unfolding give_up
give_up-at_login c (inl e) = elim (Bool-cases (on_login_page c)) [
  | inl on ↦ rw on e
  | inr off ↦ rw off refl
]
give_up-at_login c (inr off) = rw off refl

give_up-no_user : (c : Client) → (give_up c).storage "user" ≡ none
unfolding give_up
give_up-no_user c = elim (Bool-cases (on_login_page c)) [
  | inl on ↦ rw on refl
  | inr off ↦ rw off refl
]

give_up-sent : (c : Client) → (give_up c).sent ≡ c.sent
unfolding give_up
give_up-sent c = elim (Bool-cases (on_login_page c)) [ inl on ↦ rw on refl | inr off ↦ rw off refl ]

given_up-SentAway :
    (r : Request) (c : Client) (o : Outcome) (rest : List Reply)
    → (c.location ≡ "/login") ⊎ (on_login_page c ≡ false)
    → r.authorization ≡ none
    → SentAway r c.sent (give_up (log r c), o, rest)
given_up-SentAway r c o rest away plain = record {
  asked = give_up-sent (log r c);
  no_authorization = plain;
  no_user = give_up-no_user (log r c);
  at_login = give_up-at_login (log r c) away;
}

-- A refused call of a client without tokens, whose path is "/login" or holds no "/login".
refused_call :
    (r : Request) (c : Client) (error : Body) (later : List Reply)
    → c.storage "access_token" ≡ none
    → c.storage "refresh_token" ≡ none
    → (c.location ≡ "/login") ⊎ (on_login_page c ≡ false)
    → r.authorization ≡ none
    → SentAway r c.sent (send r c (reply 401 error ∷ later))
unfolding send exchange
refused_call r c error [] a b away plain = rw (a, b) (given_up-SentAway r c _ _ away plain)
refused_call r c error (next ∷ later) a b away plain =
    rw (a, b) (given_up-SentAway r c _ _ away plain)

landing-dashboard :
    (s : AuthState)
    → (landing 2 s "/dashboard" ≡ "/login") ⊎ (landing 2 s "/dashboard" ≡ "/dashboard")
unfolding route protected_route
landing-dashboard s = ground arith

-- The login page stores no access token: where none and no refresh token was there before, the first
-- call of the API client behind it, whichever it is and however the context stands when the browser
-- has rendered the new path, goes out without an Authorization header, and if the server answers it
-- with 401, the stored user is removed and the browser is back at the login page.
pub on_success_refused :
    (j : Json) (response : Body) (decimal : ℕ → String) (call : ApiCall) (s : AuthState)
    (c : Client) (error : Body) (later : List Reply)
    → c.storage "access_token" ≡ none
    → c.storage "refresh_token" ≡ none
    → SentAway
        (request_of decimal call)
        c.sent
        (make decimal call (rendered s (on_success j response c)) (reply 401 error ∷ later))
unfolding on_success make includes starts_with request_of
on_success_refused j response decimal call s c error later a b =
    let away : (landing 2 s "/dashboard" ≡ "/login")
        ⊎ (includes (codes (landing 2 s "/dashboard")) (codes "/login") ≡ false) =
      elim (landing-dashboard s) [
        | inl back ↦ inl back
        | inr stays ↦ inr (ap (λ path. includes (codes path) (codes "/login")) stays)
      ] in
    refused_call (request_of decimal call) (rendered s (on_success j response c)) error later a b
      away refl
