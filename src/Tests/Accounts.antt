-- ===== src/Tests/Accounts.antt =====
-- Runs of the pages of managerServer/frontend/src/pages on users, the profile, the login and the
-- devices at fixed inputs.
use waddle_perf.Common.{
  ℕ, zero, suc, List, [], ◌∷◌, ◌++◌, true, false, none, some, ◌≡◌, refl, All, length, ◌+◌, ◌/◌,
}
use waddle_perf.Js.Strings.{codes}
use waddle_perf.Types.{User}
use waddle_perf.Http.{Body, Client, reply}
use waddle_perf.ManagerApi.Calls.{ApiCall, request_of, make}
use waddle_perf.Http.Storage.{empty}
use waddle_perf.Auth.{Json}
use waddle_perf.Auth
use waddle_perf.Routes.{rendered}
use waddle_perf.SignIn.{on_success, SignedIn, on_success-SignedIn, SentAway, on_success_refused}
use waddle_perf.Users
use waddle_perf.Users.{UsersState, Sent}
use waddle_perf.Users.Screen
use waddle_perf.Users.Screen.{Edit, click_edit, submit_edit, change_edit}
use waddle_perf.Users.Laws.{SentFor, run-SentFor, edit_all, edit_session, run-edit_session}
use waddle_perf.Users.Paging.{read_all, read_all_complete}
use waddle_perf.Users.Newest.{IsAnswered, after, run-newest_users}
use waddle_perf.Profile
use waddle_perf.Profile.{ProfileState, password_form}
use waddle_perf.Profile.Laws.{IsOwn, run-IsOwn, Submitted, step-Submitted}
use waddle_perf.Devices.{Device, Query, Answer, found}
use waddle_perf.Devices
use waddle_perf.Devices.Actions.{PageEvent, list_event, clicked, page_run, mounted}
use waddle_perf.Devices.Allowed.{IsAllowed, page_run-IsAllowed}

abbrev ann : User
ann = record {
  id = 4;
  username = "ann";
  email = "ann@example.org";
  role = "ou_admin";
  ou_id = some 3;
  mfa_enabled = false;
  is_active = true;
  api_key = none;
}

abbrev IsActive : User → Type 0
IsActive u = u.is_active ≡ true

abbrev listed : Users.Reply
listed = Users.Reply.ok (record { users = ann ∷ []; total = 1; organizations = [] })

-- The users come, a row is opened, and its form is submitted.
abbrev edit_events : List Users.Screen.Event
edit_events = Users.Screen.Event.replied 0 listed ∷ click_edit 0 ∷ submit_edit ∷ []

run-SentFor_example :
    All (SentFor IsActive) (Users.Screen.run edit_events (Users.effect Users.initial)).sent
run-SentFor_example = run-SentFor IsActive edit_events ((refl, tt), (tt, (tt, tt)))

abbrev showing : UsersState
showing = record Users.initial { users = ann ∷ []; loading = false }

abbrev two_edits : List Edit
two_edits = Edit.role "user" ∷ Edit.ou_id none ∷ []

run-edit_session_example :
    (Users.Screen.run (edit_session 0 two_edits) showing).sent
    ≡ []
      ++ record {
        call = Users.Call.update_user 4 (edit_all two_edits (Users.form_of ann));
        page = 1;
      }
        ∷ []
run-edit_session_example = run-edit_session 0 two_edits ann showing refl

read_all_complete_example :
    read_all (length (ann ∷ ann ∷ []) / 50 + 1) (ann ∷ ann ∷ []) (Users.effect Users.initial)
    ≡ some (ann ∷ ann ∷ [])
read_all_complete_example = read_all_complete (ann ∷ ann ∷ [])

abbrev anns : ℕ → List User
anns zero = []
anns (suc n) = ann ∷ anns n

abbrev a_page : Users.Body
a_page = record { users = ann ∷ ann ∷ []; total = 52; organizations = [] }

-- A full page comes, the second page is asked for, and a new user makes the first page come again.
abbrev second_page : List Users.Screen.Event
second_page =
    Users.Screen.Event.replied 0 (Users.Reply.ok (record a_page { users = anns 50 }))
    ∷ Users.Screen.Event.next
    ∷ Users.Screen.Event.open_create
    ∷ Users.Screen.Event.submit_create
    ∷ Users.Screen.Event.replied 4 (Users.Reply.ok a_page)
    ∷ []

run-newest_users_example : IsAnswered (after second_page) a_page
run-newest_users_example = run-newest_users second_page a_page

abbrev account : Profile.Reply
account = Profile.Reply.ok (record { user = ann; secret = ""; qr_uri = "" })

abbrev profile_events : List Profile.Event
profile_events =
    Profile.Event.replied 0 account ∷ Profile.toggle_password ∷ Profile.submit_password ∷ []

run-IsOwn_example :
    All (IsOwn (some ann)) (Profile.run (some ann) profile_events (Profile.mounted (some ann))).sent
run-IsOwn_example = run-IsOwn (some ann) profile_events

abbrev changing : ProfileState
changing = record Profile.initial {
  user = some ann;
  loading = false;
  show_password_change = true;
  new_password = codes "longenough";
  confirm_password = codes "longenough";
}

step-Submitted_example :
    Submitted ann changing (Profile.step (some ann) Profile.submit_password changing)
step-Submitted_example = step-Submitted ann changing refl

abbrev json : Json
json = record { stringify = λ u. "{ann}"; parse = λ t. some ann }

abbrev response : Body
response = record {
  access_token = none;
  refresh_token = none;
  token = some "t";
  user = some ann;
  authenticated = none;
  auth_enabled = none;
  error = none;
}

abbrev browser : Client
browser = record { storage = empty; location = "/login"; sent = [] }

abbrev signed_out : Auth.AuthState
signed_out = record { user = none; token = none; is_loading = false }

on_success-SignedIn_example : SignedIn json ann "t" signed_out (on_success json response browser)
on_success-SignedIn_example =
    on_success-SignedIn json response ann "t" signed_out browser refl refl refl refl refl refl refl

abbrev probe : Device
probe = record {
  id = 9;
  device_serial = "s9";
  device_hostname = "probe";
  device_os = "linux";
  device_os_version = "6";
  client_type = "go";
  client_version = none;
  enrolled_at = "2024-01-01";
  last_seen = none;
  is_active = true;
  ou_id = 3;
  ou_name = "lab";
  minutes_since_last_seen = none;
  status = "never";
}

abbrev InLab : Device → Type 0
InLab d = d.ou_id ≡ 3

abbrev one_device : Query → Answer
one_device q = found (probe ∷ []) 1

-- The devices come, and a row's button is clicked and confirmed.
abbrev device_events : List PageEvent
device_events = list_event (Devices.Event.replied 0) ∷ clicked true 0 ∷ []

page_run-IsAllowed_example :
    All (IsAllowed (some ann) InLab) (page_run (some ann) one_device device_events mounted).actions
page_run-IsAllowed_example =
    page_run-IsAllowed (some ann) InLab one_device (λ q. (refl, tt)) device_events

abbrev refusal : Body
refusal = record response { token = none; user = none; error = some "expired" }

on_success_refused_example : SentAway (request_of (λ n. "4") (ApiCall.get_user 4)) [] (
    make
      (λ n. "4")
      (ApiCall.get_user 4)
      (rendered signed_out (on_success json response browser))
      (reply 401 refusal ∷ []))
on_success_refused_example =
    on_success_refused json response (λ n. "4") (ApiCall.get_user 4) signed_out browser refusal []
      refl refl
