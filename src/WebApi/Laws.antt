-- ===== src/WebApi/Laws.antt =====
-- What the API client of webClient/frontend/src/services/api.ts guarantees.
use waddle_perf.Common.{◌≡◌, ◌≢◌, refl, inl, inr, List, true, false, none, Bool-cases}
use waddle_perf.Http.{Body, Reply, Request, Client, resolved, rejected, pending, Run}
use waddle_perf.Http.Interceptor.{is_unauthorized}
use waddle_perf.Http.Ends.{exchange-EndsIn}
use waddle_perf.Http.Keeps.{exchange-Keeps}
use waddle_perf.WebApi.{give_up, to, send, logout, after_logout}

-- The session is over: no token is left, and the page is the login page.
pub record IsLoggedOut (c : Client) : Type 0 where
  pub no_access : c.storage "access_token" ≡ none
  pub no_refresh : c.storage "refresh_token" ≡ none
  pub at_login : c.location ≡ "/login"

give_up-IsLoggedOut : (c : Client) → IsLoggedOut (give_up c)
give_up-IsLoggedOut c = record { no_access = refl; no_refresh = refl; at_login = refl }

-- Whatever the network answers, a call that fails with 401 leaves no token in the storage, and the
-- page at "/login".
pub send-IsLoggedOut :
    (r : Request) (c : Client) (replies : List Reply)
    → is_unauthorized (send r c replies).1 ≡ true
    → IsLoggedOut (send r c replies).0
unfolding send
send-IsLoggedOut = exchange-EndsIn give_up IsLoggedOut give_up-IsLoggedOut

-- How a logout can end: with both tokens removed; with the session given up on a 401; or failed, or
-- still waiting, with the refresh token as it was.
pub data LogoutEnds (c : Client) (x : Run) : Type 0 where
  removed :
      (body : Body)
      → x.1 ≡ resolved body
      → x.0.storage "access_token" ≡ none
      → x.0.storage "refresh_token" ≡ none
      → LogoutEnds c x
  expired : is_unauthorized x.1 ≡ true → IsLoggedOut x.0 → LogoutEnds c x
  unfinished :
      is_unauthorized x.1 ≡ false
      → ((body : Body) → x.1 ≢ resolved body)
      → x.0.storage "refresh_token" ≡ c.storage "refresh_token"
      → LogoutEnds c x

after_logout-LogoutEnds :
    (c : Client) (x : Run)
    → (is_unauthorized x.1 ≡ true → IsLoggedOut x.0)
    → (is_unauthorized x.1 ≡ false → x.0.storage "refresh_token" ≡ c.storage "refresh_token")
    → LogoutEnds c (after_logout x)
unfolding after_logout
after_logout-LogoutEnds c (d, resolved body, rest) out keeps = removed body refl refl refl
after_logout-LogoutEnds c (d, pending, rest) out keeps = unfinished refl (λ body e. cc) (keeps refl)
after_logout-LogoutEnds c (d, rejected f, rest) out keeps =
    elim (Bool-cases (is_unauthorized (rejected f))) [
      | inl u ↦ expired u (out u)
      | inr u ↦ unfinished u (λ body e. cc) (keeps u)
    ]

-- Whatever the network answers, a logout ends in one of three ways: it succeeds and both tokens are
-- removed; it fails with 401 and the session is given up; or it fails otherwise, or waits, and the
-- refresh token stays in the storage as it was.
pub logout-LogoutEnds : (c : Client) (replies : List Reply) → LogoutEnds c (logout c replies)
unfolding logout send
logout-LogoutEnds c replies =
    after_logout-LogoutEnds c (send (to "POST" "/api/v1/auth/logout") c replies)
      (send-IsLoggedOut (to "POST" "/api/v1/auth/logout") c replies)
      (exchange-Keeps give_up (λ d. d.storage "refresh_token" ≡ c.storage "refresh_token")
        (λ r d p. p) (λ body d p. p) (to "POST" "/api/v1/auth/logout") c replies refl)
