-- ===== src/Shell/App.antt =====
-- webClient/frontend/src/App.tsx with the page webClient/frontend/src/components/TestRunner.tsx in it:
-- who is signed in, the tokens in the storage, and the sockets that the page opens.
use Prim.Native.String.{String}
use waddle_perf.Common.{
  List, [], ◌∷◌, Bool, true, false, ◌&&◌, ◌||◌, if◌then◌else◌, Option, none, some,
}
use waddle_perf.Regex.{Text}
use waddle_perf.Js.Strings.{codes}
use waddle_perf.Http.{Reply, Client}
use waddle_perf.Runner.{
  World, Event, mount, unmount, visit, stored, connected, connect_error, disconnected, message,
  submit, choose, close, again, step, first_world,
}
use waddle_perf.Runner.View
use waddle_perf.Shell.{
  ShellState, check_auth, handle_logout, LoginResponse, on_success, Shown, loading_screen,
  login_page, nothing, test_runner, navigate, follow,
}
use waddle_perf.Shell

abbrev pub is_runner : Shown → Bool
is_runner (test_runner user enabled) = true
is_runner loading_screen = false
is_runner login_page = false
is_runner nothing = false
is_runner (navigate target) = false

abbrev pub is_login : Shown → Bool
is_login login_page = true
is_login loading_screen = false
is_login (test_runner user enabled) = false
is_login nothing = false
is_login (navigate target) = false

-- What the two paths show.
unfoldable pub shows_tests : ShellState → Bool
shows_tests s = is_runner (follow s "/")

unfoldable pub shows_login : ShellState → Bool
shows_login s = is_login (follow s "/login")

pub record App : Type 0 where
  pub shell : ShellState
  pub client : Client
  pub world : World

-- `localStorage.getItem('access_token')`
abbrev pub item_text : Option String → Option Text
item_text none = none
item_text (some s) = some (codes s)

abbrev pub token_of : Client → Option Text
token_of c = item_text (c.storage "access_token")

-- The page comes, goes, or stays as it is when the shell is rendered once more.
abbrev pub enter_or_leave : Bool → Bool → World → World
enter_or_leave false true w = step visit w
enter_or_leave true false w = step unmount w
enter_or_leave false false w = w
enter_or_leave true true w = w

unfoldable pub rendered : ShellState → Client → App → App
rendered s c a = record {
  shell = s;
  client = c;
  world = enter_or_leave (shows_tests a.shell) (shows_tests s) (step (stored (token_of c)) a.world);
}

-- The answer to the first request, a login, a click on "Logout", and what happens to the page.
pub data AppEvent : Type 0 where
  checked log_out : List Reply → AppEvent
  logged_in : LoginResponse → AppEvent
  happens : Event → AppEvent

-- Events of the sockets come at any time, those of the page while it is shown.
abbrev pub of_socket : Event → Bool
of_socket (connected i) = true
of_socket (connect_error i) = true
of_socket (disconnected i) = true
of_socket (message i m) = true
of_socket _ = false

abbrev pub of_page : Event → Bool
of_page mount = true
of_page unmount = true
of_page (submit d) = true
of_page (choose t) = true
of_page close = true
of_page again = true
of_page _ = false

abbrev pub can_happen : Event → App → Bool
can_happen e a = of_socket e || of_page e && shows_tests a.shell

-- The button "Logout" is in the bar of the page.
abbrev pub can_log_out : App → Bool
can_log_out a = shows_tests a.shell && (a.shell.auth_enabled && View.is_there a.shell.user)

unfoldable pub app_step : AppEvent → App → App
app_step (checked replies) a =
    let (s, ran) = check_auth a.client replies a.shell in
    if a.shell.loading then rendered s ran.0 a else a
app_step (logged_in response) a =
    let (s, c) = on_success response a.shell a.client in
    if shows_login a.shell then rendered s c a else a
app_step (log_out replies) a =
    let (called, ran) = View.handle_logout a.client replies in
    let s = if called then handle_logout a.shell else a.shell in
    if can_log_out a then rendered s ran.0 a else a
app_step (happens e) a = if can_happen e a then record a { world = step e a.world } else a

abbrev pub app_run : List AppEvent → App → App
app_run [] a = a
app_run (e ∷ es) a = app_run es (app_step e a)

-- The application before its first request, with what the storage holds.
abbrev pub first_app : Client → App
first_app c = record {
  shell = Shell.initial;
  client = c;
  world = step (stored (token_of c)) first_world;
}
