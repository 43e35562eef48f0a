-- ===== src/Shell.antt =====
-- webClient/frontend/src/App.tsx, with what webClient/frontend/src/components/Login.tsx does when a
-- login succeeds. The form of the login page belongs to another package: its response is an input.
pub mod Laws
pub mod App
pub mod Quiet
use Prim.Native.String.{String}
use text.Mathlib.Text.{◌==◌ as str_eq}
use waddle_perf.Common.{
  ℕ, zero, suc, List, [], ◌∷◌, Bool, true, false, not, ◌&&◌, if◌then◌else◌, Option, none, some,
}
use waddle_perf.Regex.{Text}
use waddle_perf.Js.Number.{Number, frac, parse_int}
use waddle_perf.Types.{User}
use waddle_perf.Http.{Body, Reply, Client, Outcome, resolved, rejected, pending, Run}
use waddle_perf.Http.Storage.{set_item, truthy, text_of}
use waddle_perf.WebApi

pub record WebUser : Type 0 where
  pub id : Number
  pub username : String
  pub email : String
  pub role : String

-- A field that the reply leaves out is `undefined`, which counts as false.
pub record ShellState : Type 0 where
  pub is_authenticated : Bool
  pub auth_enabled : Bool
  pub user : Option WebUser
  pub loading : Bool

abbrev pub initial : ShellState
initial = record { is_authenticated = false; auth_enabled = true; user = none; loading = true }

abbrev pub is_true : Option Bool → Bool
is_true none = false
is_true (some b) = b

abbrev pub web_user : User → WebUser
web_user u = record {
  id = frac false u.id 0;
  username = u.username;
  email = u.email;
  role = u.role;
}

-- `if (response.user) setUser(response.user)`
abbrev pub set_user : Option User → Option WebUser → Option WebUser
set_user none old = old
set_user (some u) old = some (web_user u)

unfoldable pub after_check : Outcome → ShellState → ShellState
after_check (resolved body) s = record s {
  auth_enabled = is_true body.auth_enabled;
  is_authenticated = is_true body.authenticated;
  user = set_user body.user s.user;
  loading = false;
}
after_check (rejected f) s = record s {
  auth_enabled = true;
  is_authenticated = false;
  loading = false;
}
after_check pending s = s

-- `checkAuth`
unfoldable pub check_auth : Client → List Reply → ShellState → ShellState × Run
check_auth c replies s = let ran = WebApi.check_auth_status c replies in (after_check ran.1 s, ran)

unfoldable pub handle_login : WebUser → ShellState → ShellState
handle_login u s = record s { user = some u; is_authenticated = true }

unfoldable pub handle_logout : ShellState → ShellState
handle_logout s = record s { user = none; is_authenticated = false }

-- What the login page hands over.
pub record LoginUser : Type 0 where
  pub id : Text
  pub name : Option String
  pub email : String
  pub roles : Option (List String)

pub record LoginResponse : Type 0 where
  pub user : Option LoginUser
  pub token : Option String
  pub refresh_token : Option String

-- `response.user.roles?.[0] ?? 'viewer'`
abbrev pub role_of : Option (List String) → String
role_of none = "viewer"
role_of (some []) = "viewer"
role_of (some (r ∷ rs)) = r

abbrev pub or_email : Option String → String → String
or_email none email = email
or_email (some name) email = name

abbrev pub login_user : LoginUser → WebUser
login_user u = record {
  id = parse_int u.id;
  username = or_email u.name u.email;
  email = u.email;
  role = role_of u.roles;
}

abbrev pub login_if : Option LoginUser → ShellState → ShellState
login_if none s = s
login_if (some u) s = handle_login (login_user u) s

-- `onSuccess` of the login page.
unfoldable pub on_success : LoginResponse → ShellState → Client → ShellState × Client
unfolding handle_login
on_success response s c = (
  login_if response.user s,
  WebApi.store_if "refresh_token" response.refresh_token
      (WebApi.store_if "access_token" response.token c),
)

pub data Shown : Type 0 where
  loading_screen login_page nothing : Shown
  test_runner : (user : Option WebUser) (auth_enabled : Bool) → Shown
  navigate : String → Shown

-- `authEnabled && !isAuthenticated`
abbrev pub must_log_in : ShellState → Bool
must_log_in s = s.auth_enabled && not s.is_authenticated

unfoldable pub route : ShellState → String → Shown
route s path =
    if s.loading
    then loading_screen
    else if str_eq path "/login"
    then (if must_log_in s then login_page else navigate "/")
    else if str_eq path "/"
    then (if must_log_in s then navigate "/login" else test_runner s.user s.auth_enabled)
    else nothing

-- The browser follows one redirection.
unfoldable pub follow : ShellState → String → Shown
unfolding route
follow s path = elim (route s path) [
  | navigate target ↦ route s target
  | loading_screen ↦ loading_screen
  | login_page ↦ login_page
  | nothing ↦ nothing
  | test_runner user enabled ↦ test_runner user enabled
]
