-- ===== src/Runner/Bounds.antt =====
-- What the packets are that the sockets of webClient/frontend/src/components/TestRunner.tsx send, and
-- which steps of the runner and of the trace form keep it so.
use waddle_perf.Common.{
  ℕ, zero, suc, List, [], ◌∷◌, map, Bool, true, not, ◌&&◌, ◌≡◌, refl, Option, none, some, if_intro,
  All, All-append,
}
use waddle_perf.Regex.{Text}
use waddle_perf.Form.{TestData}
use waddle_perf.Form.Submit.{IsWellFormed}
use waddle_perf.Form.Reach.{PortFits}
use waddle_perf.Trace.{TraceData, TraceWorld}
use waddle_perf.Trace.Bounds.{IsTrace, SentTraces, on_test_complete-sent, on_error-sent, each-sent}
use waddle_perf.Socket
use waddle_perf.Socket.{Sock, Service, Watcher, new_sock, change}
use waddle_perf.Runner.{
  Packet, of_form, of_trace, Message, test_started, test_progress_of, test_complete, World, Event,
  mount, unmount, visit, visited, stored, connected, connect_error, disconnected, message, submit,
  choose, close, again, connect_of, connect_error_of, message_of, initialize, initialized,
  handle_test_start, step,
}
use waddle_perf.Runner.Tracing.{send_all, watch_all, Reading, trace_listen, on_message}

-- Within the bounds, with the port that belongs to the test type.
abbrev pub Fits : TestData → Type 0
Fits d = IsWellFormed d × PortFits d.test_type d.port

abbrev pub PacketFits : Packet → Type 0
PacketFits (of_form d) = Fits d
PacketFits (of_trace d) = IsTrace d

abbrev pub SockFits : Sock Packet → Type 0
SockFits k = All PacketFits k.sent

-- All that was sent over any of the sockets, also over those that are gone.
abbrev pub ServiceFits : Service Packet → Type 0
ServiceFits v = All SockFits v.sockets

abbrev pub WorldFits : World → Type 0
WorldFits w = ServiceFits w.service

change-All :
    (f : Sock Packet → Sock Packet)
    → ((k : Sock Packet) → SockFits k → SockFits (f k))
    → (i : ℕ) (ks : List (Sock Packet)) → All SockFits ks
    → All SockFits (change f i ks)
change-All f keep i [] h = tt
change-All f keep zero (k ∷ ks) (p, h) = (keep k p, h)
change-All f keep (suc i) (k ∷ ks) (p, h) = (p, change-All f keep i ks h)

change_current-Fits :
    (f : Sock Packet → Sock Packet)
    → ((k : Sock Packet) → SockFits k → SockFits (f k))
    → (o : Option ℕ) (v : Service Packet) → ServiceFits v
    → ServiceFits (Socket.change_current f o v)
change_current-Fits f keep none v h = h
change_current-Fits f keep (some i) v h = change-All f keep i v.sockets h

connect-Fits :
    (t : Option Text) (v : Service Packet) → ServiceFits v → ServiceFits (Socket.connect t v)
unfolding Socket.connect
connect-Fits t v h = All-append SockFits v.sockets (new_sock _ ∷ []) h (tt, tt)

disconnect-Fits :
    (o : Option ℕ) (v : Service Packet)
    → v.socket ≡ o
    → ServiceFits v
    → ServiceFits (Socket.disconnect v)
unfolding Socket.disconnect
disconnect-Fits none v e h = rw e h
disconnect-Fits (some i) v e h =
    rw e (change-All (λ k. record k { closed = true }) (λ k p. p) i v.sockets h)

abandon-Fits : (k : Sock Packet) → SockFits k → SockFits (Socket.abandon k)
unfolding Socket.abandon
abandon-Fits k h = if_intro SockFits k.closed _ _ h h

map-abandon-Fits :
    (ks : List (Sock Packet)) → All SockFits ks → All SockFits (map Socket.abandon ks)
map-abandon-Fits [] h = tt
map-abandon-Fits (k ∷ ks) (p, h) = (abandon-Fits k p, map-abandon-Fits ks h)

abandon_all-Fits : (v : Service Packet) → ServiceFits v → ServiceFits (Socket.abandon_all v)
unfolding Socket.abandon_all
abandon_all-Fits v h = map-abandon-Fits v.sockets h

add_listeners-Fits : (v : Service Packet) → ServiceFits v → ServiceFits (Socket.add_listeners v)
unfolding Socket.add_listeners
add_listeners-Fits v h = change_current-Fits _ (λ k p. p) v.socket v h

add_watcher-Fits :
    (x : Watcher) (v : Service Packet) → ServiceFits v → ServiceFits (Socket.add_watcher x v)
unfolding Socket.add_watcher
add_watcher-Fits x v h = change_current-Fits _ (λ k p. p) v.socket v h

start_test-Fits :
    (d : Packet) (v : Service Packet)
    → PacketFits d
    → ServiceFits v
    → ServiceFits (Socket.start_test d v)
unfolding Socket.start_test
start_test-Fits d v fits h =
    if_intro ServiceFits (Socket.is_there v.socket && v.is_connected) _ _
      (change_current-Fits _ (λ k p. (fits, p)) v.socket v h) h

settle-Fits :
    (i : ℕ) (v : Service Packet) → ServiceFits v → ServiceFits (Socket.change_at Socket.settle i v)
settle-Fits i v h = change-All Socket.settle (λ k p. p) i v.sockets h

abbrev pub EventFits : Event → Type 0
EventFits (submit d) = Fits d
EventFits _ = Unit

pub step-Fits : (e : Event) (w : World) → EventFits e → WorldFits w → WorldFits (step e w)
unfolding step visited initialize initialized connect_of connect_error_of message_of
    handle_test_start Socket.on_connect Socket.on_connect_error Socket.on_disconnect
step-Fits mount w e h = connect-Fits w.access_token w.service h
step-Fits unmount w e h = disconnect-Fits w.service.socket w.service refl h
step-Fits visit w e h =
    connect-Fits w.access_token (Socket.abandon_all (Socket.disconnect w.service)) (
      abandon_all-Fits (Socket.disconnect w.service)
        (disconnect-Fits w.service.socket w.service refl h))
step-Fits (connected i) w e h =
    if_intro WorldFits (Socket.is_open i w.service) _ _
      (if_intro WorldFits (Socket.is_settled i w.service) _ _ (settle-Fits i w.service h)
        (add_listeners-Fits (Socket.on_connect i w.service) (settle-Fits i w.service h)))
      h
step-Fits (connect_error i) w e h =
    if_intro WorldFits (Socket.is_open i w.service) _ _
      (if_intro WorldFits (Socket.is_settled i w.service) _ _ (settle-Fits i w.service h)
        (settle-Fits i w.service h))
      h
step-Fits (disconnected i) w e h = if_intro WorldFits (Socket.is_open i w.service) _ _ h h
step-Fits (message i m) w e h = if_intro WorldFits (Socket.is_open i w.service) _ _ h h
step-Fits (submit d) w e h =
    if_intro WorldFits (not w.state.ws_connected) _ _ (connect-Fits w.access_token w.service h)
      (start_test-Fits (of_form d) w.service e h)
step-Fits (stored t) w e h = h
step-Fits (choose tab) w e h = h
step-Fits close w e h = h
step-Fits again w e h = h

-- The traces that a step of the form sends go out, and its listeners are added.
pub send_all-Fits :
    (ds : List TraceData) (v : Service Packet)
    → All IsTrace ds
    → ServiceFits v
    → ServiceFits (send_all ds v)
send_all-Fits [] v fits h = h
send_all-Fits (d ∷ ds) v (p, fits) h =
    start_test-Fits (of_trace d) (send_all ds v) p (send_all-Fits ds v fits h)

pub watch_all-Fits :
    (showing : ℕ) (bs : List Bool) (v : Service Packet)
    → ServiceFits v
    → ServiceFits (watch_all showing bs v)
watch_all-Fits showing [] v h = h
watch_all-Fits showing (b ∷ bs) v h = watch_all-Fits showing bs _ (add_watcher-Fits _ v h)

trace_listen-sent :
    (m : Message) (x : Reading) (b : Bool) (w : TraceWorld)
    → SentTraces w
    → SentTraces (trace_listen m x b w)
unfolding trace_listen
trace_listen-sent test_started x b w h = h
trace_listen-sent (test_progress_of progress current_index draw) x b w h = h
trace_listen-sent (test_complete result) x b w h = on_test_complete-sent x.result b w h
trace_listen-sent Message.error x b w h = on_error-sent x.error b w h

pub on_message-sent :
    (m : Message) (x : Reading) (bs : List Bool) (w : TraceWorld)
    → SentTraces w
    → SentTraces (on_message m x bs w)
unfolding on_message
on_message-sent m x bs w h = each-sent (trace_listen m x) (trace_listen-sent m x) bs w h
