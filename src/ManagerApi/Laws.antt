-- ===== src/ManagerApi/Laws.antt =====
-- What the API client of managerServer/frontend/src/services/api.ts guarantees.
use waddle_perf.Common.{◌≡◌, refl, ◌⊎◌, inl, inr, List, true, none, Bool-cases}
use waddle_perf.Http.{Reply, Request, Client}
use waddle_perf.Http.Interceptor.{is_unauthorized}
use waddle_perf.Http.Ends.{exchange-EndsIn}
use waddle_perf.ManagerApi.{on_login_page, give_up, send}

-- No token and no user is left, and the page is one of the login.
pub record IsSignedOut (c : Client) : Type 0 where
  pub no_access : c.storage "access_token" ≡ none
  pub no_refresh : c.storage "refresh_token" ≡ none
  pub no_user : c.storage "user" ≡ none
  pub at_login : (c.location ≡ "/login") ⊎ (on_login_page c ≡ true)

give_up-IsSignedOut : (c : Client) → IsSignedOut (give_up c)
unfolding give_up
give_up-IsSignedOut c = elim (Bool-cases (on_login_page c)) [
  | inl on ↦
      rw on (record { no_access = refl; no_refresh = refl; no_user = refl; at_login = inr on })
  | inr off ↦
      rw off (record { no_access = refl; no_refresh = refl; no_user = refl; at_login = inl refl })
]

-- Whatever the network answers, a call that fails with 401 leaves no access token, no refresh token
-- and no user in the storage, and the page at a login path.
pub send-IsSignedOut :
    (r : Request) (c : Client) (replies : List Reply)
    → is_unauthorized (send r c replies).1 ≡ true
    → IsSignedOut (send r c replies).0
unfolding send
send-IsSignedOut = exchange-EndsIn give_up IsSignedOut give_up-IsSignedOut
