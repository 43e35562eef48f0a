-- ===== src/Tests/Sessions.antt =====
-- Runs of the two API clients, the provider of the manager and its routes, at fixed inputs.
use waddle_perf.Common.{List, ◌≡◌, refl, true, false, none, some, [], ◌∷◌}
use waddle_perf.Types.{User}
use waddle_perf.Http.{Body, reply, no_reply, Request, Client}
use waddle_perf.Http.Storage.{empty, set_item}
use waddle_perf.Http.Interceptor.{exchange}
use waddle_perf.Http.Session.{Round, stale, IsRecovered, exchange-IsRecovered}
use waddle_perf.WebApi
use waddle_perf.WebApi.Laws.{IsLoggedOut, send-IsLoggedOut, LogoutEnds, logout-LogoutEnds}
use waddle_perf.ManagerApi
use waddle_perf.ManagerApi.Laws.{IsSignedOut, send-IsSignedOut}
use waddle_perf.Auth.{Json, AuthState, initial, restore, login, logout, after_login, after_logout}
use waddle_perf.Auth.Laws.{restore-login}
use waddle_perf.Routes.Bar.{IsOut, handle_logout, handle_logout-IsOut}
use waddle_perf.Shell
use waddle_perf.Shell.{follow, route, after_check, check_auth, initial as first_render}
use waddle_perf.Runner.{connected}
use waddle_perf.Runner.View
use waddle_perf.Shell.App.{
  AppEvent, checked, log_out, happens, shows_tests, rendered, app_step, app_run, first_app,
}
use waddle_perf.Shell.Quiet.{IsSilent, app_run-IsSilent}
use waddle_perf.Shell.Laws.{Leads, expected, check_auth-Leads}

abbrev ada : User
ada = record {
  id = 7;
  username = "ada";
  email = "ada@a.io";
  role = "user";
  ou_id = none;
  mfa_enabled = false;
  is_active = true;
  api_key = none;
}

abbrev nothing : Body
nothing = record {
  access_token = none;
  refresh_token = none;
  token = none;
  user = none;
  authenticated = none;
  auth_enabled = none;
  error = none;
}

abbrev fresh : Body
fresh = record nothing { access_token = some "new" }

abbrev signed_in : Body
signed_in = record nothing { token = some "tok"; user = some ada }

abbrev stranger : Client
stranger = record { storage = empty; location = "/"; sent = [] }

abbrev known : Client
known = record stranger {
  storage = set_item "refresh_token" "r" (set_item "access_token" "old" empty);
}

abbrev me : Request
me = WebApi.to "GET" "/api/v1/auth/status"

-- JSON on the one user of these runs.
abbrev json : Json
json = record { stringify = λ u. "{}"; parse = λ s. some ada }

abbrev renewals : List Round
renewals =
    record {
      refusal = nothing;
      status = 200;
      grant = record nothing { access_token = some "first" };
    }
    ∷ record { refusal = nothing; status = 201; grant = nothing }
    ∷ []

exchange-IsRecovered_example : IsRecovered me (reply 200 nothing) "new" (no_reply ∷ []) (
    exchange WebApi.give_up me known (
      stale renewals (
        stale
          (record { refusal = nothing; status = 200; grant = fresh } ∷ [])
          (reply 200 nothing ∷ no_reply ∷ []))))
exchange-IsRecovered_example =
    exchange-IsRecovered WebApi.give_up (reply 200 nothing) "new" renewals
      (record { refusal = nothing; status = 200; grant = fresh }) me known (no_reply ∷ []) refl
      (refl, (refl, tt)) refl refl refl refl

send-IsSignedOut_example :
    IsSignedOut (ManagerApi.send me known (reply 401 nothing ∷ reply 401 nothing ∷ [])).0
unfolding ManagerApi.send exchange
send-IsSignedOut_example =
    send-IsSignedOut me known (reply 401 nothing ∷ reply 401 nothing ∷ []) refl

send-IsLoggedOut_example : IsLoggedOut (WebApi.send me known (reply 401 nothing ∷ no_reply ∷ [])).0
unfolding WebApi.send exchange
send-IsLoggedOut_example = send-IsLoggedOut me known (reply 401 nothing ∷ no_reply ∷ []) refl

logout-LogoutEnds_example : LogoutEnds known (WebApi.logout known (no_reply ∷ []))
logout-LogoutEnds_example = logout-LogoutEnds known (no_reply ∷ [])

restore-login_example :
    restore json (login json initial stranger (reply 200 signed_in ∷ [])).1.0 initial
    ≡ some (record { user = some ada; token = some "tok"; is_loading = false })
unfolding login after_login ManagerApi.login ManagerApi.send exchange
restore-login_example =
    restore-login json ada "tok" refl refl refl initial stranger (reply 200 signed_in ∷ [])
      signed_in refl refl refl

abbrev session : AuthState
session = record { user = some ada; token = some "tok"; is_loading = false }

check_auth-Leads_example :
    Leads
      (check_auth known (reply 200 nothing ∷ []) first_render).0
      (expected (WebApi.check_auth_status known (reply 200 nothing ∷ [])).1 first_render)
check_auth-Leads_example = check_auth-Leads known (reply 200 nothing ∷ [])

handle_logout-IsOut_example : IsOut (handle_logout session known (no_reply ∷ []))
unfolding logout after_logout ManagerApi.logout ManagerApi.after_logout ManagerApi.send exchange
handle_logout-IsOut_example = handle_logout-IsOut session known (no_reply ∷ []) refl (λ e. cc)

-- A user who is signed in logs out without an answer, and the socket connects behind that.
abbrev in_and_out : List AppEvent
in_and_out =
    checked
      (reply 200 (record signed_in { authenticated = some true; auth_enabled = some true }) ∷ [])
    ∷ log_out (no_reply ∷ [])
    ∷ happens (connected 0)
    ∷ []

app_run-IsSilent_example : IsSilent (app_run in_and_out (first_app known)).world.service
unfolding app_step rendered shows_tests follow route check_auth after_check WebApi.check_auth_status
    WebApi.send exchange View.handle_logout WebApi.logout WebApi.after_logout Shell.handle_logout
app_run-IsSilent_example = app_run-IsSilent known in_and_out refl
