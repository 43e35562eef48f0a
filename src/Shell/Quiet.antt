-- ===== src/Shell/Quiet.antt =====
-- What the sockets of webClient/frontend/src/services/websocket.ts do while
-- webClient/frontend/src/App.tsx does not show the tests.
use waddle_perf.Common.{
  ℕ, List, [], ◌∷◌, Bool, true, false, ◌&&◌, ◌≡◌, refl, ap, ◌∙◌, Option, none, some, if_intro, inl,
  inr, arith, Bool-cases, if◌then◌else◌,
}
use waddle_perf.Http.{Client}
use waddle_perf.Socket
use waddle_perf.Socket.{Service}
use waddle_perf.Runner.{
  Packet, World, Event, mount, unmount, visit, stored, connected, connect_error, disconnected,
  message, submit, choose, close, again, initialized, connect_of, connect_error_of, message_of,
  step,
}
use waddle_perf.Runner.View
use waddle_perf.Shell.{ShellState, check_auth, handle_logout, on_success}
use waddle_perf.Shell.App.{
  App, AppEvent, checked, log_out, logged_in, happens, shows_tests, shows_login, token_of,
  enter_or_leave, rendered, of_socket, can_happen, can_log_out, app_step, app_run, first_app,
}

-- A step of a socket leaves the current socket of the service where it is.
change_current-socket :
    (f : Socket.Sock Packet → Socket.Sock Packet) (o : Option ℕ) (v : Service Packet)
    → (Socket.change_current f o v).socket ≡ v.socket
change_current-socket f none v = refl
change_current-socket f (some i) v = refl

abbrev Without : World → Type 0
Without w = w.service.socket ≡ none

step-Without : (e : Event) (w : World) → of_socket e ≡ true → Without w → Without (step e w)
unfolding step connect_of connect_error_of message_of initialized Socket.add_listeners
    Socket.on_connect Socket.on_connect_error Socket.on_disconnect
step-Without mount w e h = cc
step-Without unmount w e h = cc
step-Without visit w e h = cc
step-Without (submit d) w e h = cc
step-Without (stored t) w e h = cc
step-Without (choose t) w e h = cc
step-Without close w e h = cc
step-Without again w e h = cc
step-Without (connected i) w e h =
    if_intro Without (Socket.is_open i w.service) _ _
      (if_intro Without (Socket.is_settled i w.service) _ _ h
        (change_current-socket _ w.service.socket _ ∙ h))
      h
step-Without (connect_error i) w e h =
    if_intro Without (Socket.is_open i w.service) _ _
      (if_intro Without (Socket.is_settled i w.service) _ _ h h) h
step-Without (disconnected i) w e h = if_intro Without (Socket.is_open i w.service) _ _ h h
step-Without (message i m) w e h = if_intro Without (Socket.is_open i w.service) _ _ h h

unmount-Without : (o : Option ℕ) (w : World) → w.service.socket ≡ o → Without (step unmount w)
unfolding step Socket.disconnect
unmount-Without none w e = rw e refl
unmount-Without (some i) w e = rw e refl

abbrev Quiet : App → Type 0
Quiet a = shows_tests a.shell ≡ false → Without a.world

enter_or_leave-Without :
    (before after : Bool) (w : World)
    → (before ≡ false → Without w)
    → after ≡ false
    → Without (enter_or_leave before after w)
enter_or_leave-Without before true w h off = cc
enter_or_leave-Without false false w h off = h refl
enter_or_leave-Without true false w h off = unmount-Without w.service.socket w refl

rendered-Quiet : (s : ShellState) (c : Client) (a : App) → Quiet a → Quiet (rendered s c a)
unfolding rendered step
rendered-Quiet s c a h off =
    enter_or_leave-Without (shows_tests a.shell) (shows_tests s)
      (step (stored (token_of c)) a.world) h off

happens-Quiet :
    (e : Event) (a : App)
    → Quiet a
    → can_happen e a ≡ true
    → Quiet (record a { world = step e a.world })
happens-Quiet e a h can off = elim (Bool-cases (of_socket e)) [
  | inl socket ↦ step-Without e a.world socket (h off)
  | inr page ↦ absurd (ground (arith, can, page, off))
]

app_step-Quiet : (e : AppEvent) (a : App) → Quiet a → Quiet (app_step e a)
unfolding app_step
app_step-Quiet (checked replies) a h =
    let (s, ran) = check_auth a.client replies a.shell in
    if_intro Quiet a.shell.loading _ _ (rendered-Quiet s ran.0 a h) h
app_step-Quiet (logged_in response) a h =
    let (s, c) = on_success response a.shell a.client in
    if_intro Quiet (shows_login a.shell) _ _ (rendered-Quiet s c a h) h
app_step-Quiet (log_out replies) a h =
    let (called, ran) = View.handle_logout a.client replies in
    if_intro Quiet (can_log_out a) _ _
      (rendered-Quiet (if called then handle_logout a.shell else a.shell) ran.0 a h) h
app_step-Quiet (happens e) a h = elim (Bool-cases (can_happen e a)) [
  | inl can ↦ rw can (happens-Quiet e a h can)
  | inr not_now ↦ rw not_now h
]

app_run-Quiet : (es : List AppEvent) (a : App) → Quiet a → Quiet (app_run es a)
app_run-Quiet [] a h = h
app_run-Quiet (e ∷ es) a h = app_run-Quiet es (app_step e a) (app_step-Quiet e a h)

first-Quiet : (c : Client) → Quiet (first_app c)
unfolding step
first-Quiet c off = refl

start_test-nowhere : (d : Packet) (v : Service Packet) → v.socket ≡ none → Socket.start_test d v ≡ v
unfolding Socket.start_test
start_test-nowhere d v h =
    ap
      (λ b.
        if b && v.is_connected
        then Socket.change_current (λ k. record k { sent = d ∷ k.sent }) v.socket v
        else v)
      (ap Socket.is_there h)

-- The service has no socket, and what it is asked to send goes nowhere.
pub record IsSilent (v : Service Packet) : Type 0 where
  pub no_socket : v.socket ≡ none
  pub drops : (d : Packet) → Socket.start_test d v ≡ v

-- Whatever the first request, the logins, the logouts, the clicks and the events of the sockets were,
-- in any order: while the tests are not shown, the service has no socket, and a test or a trace that it
-- is asked to send goes nowhere.
pub app_run-IsSilent :
    (c : Client) (es : List AppEvent)
    → shows_tests (app_run es (first_app c)).shell ≡ false
    → IsSilent (app_run es (first_app c)).world.service
app_run-IsSilent c es off =
    let none_left = app_run-Quiet es (first_app c) (first-Quiet c) off in
    record { no_socket = none_left; drops = λ d. start_test-nowhere d _ none_left }
