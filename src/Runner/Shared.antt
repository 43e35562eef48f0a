-- ===== src/Runner/Shared.antt =====
-- A completion that arrives on a socket with the listeners of both
-- webClient/frontend/src/components/TestRunner.tsx and TraceTest.tsx.
use waddle_perf.Common.{
  at, ℕ, zero, suc, List, [], ◌∷◌, ◌++◌, Bool, true, false, ◌==◌, not, ◌&&◌, ◌≡◌, refl, ap, ◌∙◌,
  Option, none, some, if_intro, inl, inr, Bool-cases,
}
use waddle_perf.Regex.{Text}
use waddle_perf.Trace.{TraceResult, TraceData, on_test_complete}
use waddle_perf.Trace.Laws.{has_true, each-Shows}
use waddle_perf.Socket
use waddle_perf.Socket.{Sock, Service, Watcher, change}
use waddle_perf.Runner.{Packet, of_trace, TestCompleteData, test_complete, message_of, step}
use waddle_perf.Runner.Complete.{IsDone, listen_all-IsDone}
use waddle_perf.Runner.Tracing.{
  trace_world, send_all, watch_all, deliver, Reading, trace_listen, of_showing, on_message,
}
use waddle_perf.Runner.Page.{Page, arrive, page_step}

-- An open socket to which the runner's listeners were added `m + 1` times, and to which the trace form
-- with the number `n` added listeners while a trace ran.
pub record Waits (m n : ℕ) (k : Sock Packet) : Type 0 where
  pub is_open : k.closed ≡ false
  pub listened : k.listeners ≡ suc m
  pub traced : has_true (of_showing n k.watchers) ≡ true

abbrev pub WaitsAt : ℕ → ℕ → ℕ → List (Sock Packet) → Type 0
WaitsAt m n i ks = (k : Sock Packet) × (at i ks ≡ some k) × Waits m n k

module _ (m n : ℕ) where
  abbrev Keeps : (Sock Packet → Sock Packet) → Type 0
  Keeps f = (k : Sock Packet) → Waits m n k → Waits m n (f k)

  change-WaitsAt :
      (f : Sock Packet → Sock Packet)
      → Keeps f
      → (i j : ℕ) (ks : List (Sock Packet)) → WaitsAt m n i ks
      → WaitsAt m n i (change f j ks)
  change-WaitsAt f keep i j [] h = h
  change-WaitsAt f keep zero zero (x ∷ ks) (k, e, h) = (
    f k,
    ap (λ (o : Option (Sock Packet)). elim o [ none ↦ none | some y ↦ some (f y) ]) e,
    keep k h,
  )
  change-WaitsAt f keep zero (suc j) (x ∷ ks) h = h
  change-WaitsAt f keep (suc i) zero (x ∷ ks) h = h
  change-WaitsAt f keep (suc i) (suc j) (x ∷ ks) h = change-WaitsAt f keep i j ks h

  abbrev ServiceWaits : ℕ → Service Packet → Type 0
  ServiceWaits i v = WaitsAt m n i v.sockets

  change_current-WaitsAt :
      (f : Sock Packet → Sock Packet)
      → Keeps f
      → (i : ℕ) (o : Option ℕ) (v : Service Packet) → ServiceWaits i v
      → ServiceWaits i (Socket.change_current f o v)
  change_current-WaitsAt f keep i none v h = h
  change_current-WaitsAt f keep i (some j) v h = change-WaitsAt f keep i j v.sockets h

  send_all-WaitsAt :
      (ds : List TraceData) (i : ℕ) (v : Service Packet)
      → ServiceWaits i v
      → ServiceWaits i (send_all ds v)
  unfolding Socket.start_test
  send_all-WaitsAt [] i v h = h
  send_all-WaitsAt (d ∷ ds) i v h =
      let u = send_all ds v in
      let sent = send_all-WaitsAt ds i v h in
      if_intro (ServiceWaits i) (Socket.is_there u.socket && u.is_connected) _ _
        (change_current-WaitsAt (λ k. record k { sent = of_trace d ∷ k.sent })
          (λ k w. record { is_open = w.is_open; listened = w.listened; traced = w.traced }) i
          u.socket u sent)
        sent

  of_showing-append :
      (x : Watcher) (xs : List Watcher)
      → has_true (of_showing n xs) ≡ true
      → has_true (of_showing n (xs ++ x ∷ [])) ≡ true
  of_showing-append x [] h = cc
  of_showing-append x (y ∷ ys) h = elim (Bool-cases (y.showing == n)) [
    | inl mine ↦ elim (Bool-cases y.is_running) [
      | inl on ↦ rw (mine, on) refl
      | inr off ↦ rw (mine, off) (of_showing-append x ys (rw (mine, off) at h))
    ]
    | inr other ↦ rw other (of_showing-append x ys (rw other at h))
  ]

  watch_all-WaitsAt :
      (bs : List Bool) (i : ℕ) (v : Service Packet)
      → ServiceWaits i v
      → ServiceWaits i (watch_all n bs v)
  unfolding Socket.add_watcher
  watch_all-WaitsAt [] i v h = h
  watch_all-WaitsAt (b ∷ bs) i v h =
      let x : Watcher = record { showing = n; is_running = b } in
      watch_all-WaitsAt bs i (Socket.add_watcher x v) (
        change_current-WaitsAt (λ k. record k { watchers = k.watchers ++ x ∷ [] })
          (λ k w. record {
            is_open = w.is_open;
            listened = w.listened;
            traced = of_showing-append x k.watchers w.traced;
          })
          i v.socket v h)

-- What the service says of the socket.
module _ (i : ℕ) (k : Sock Packet) (v : Service Packet) (there : at i v.sockets ≡ some k) where
  is_open-at : k.closed ≡ false → Socket.is_open i v ≡ true
  is_open-at h =
      ap (λ (o : Option (Sock Packet)). elim o [ none ↦ false | some y ↦ not y.closed ]) there
      ∙ ap not h

  listeners-at : Socket.listeners_of i v ≡ k.listeners
  listeners-at = ap (λ (o : Option (Sock Packet)). elim o [ none ↦ 0 | some y ↦ y.listeners ]) there

  watchers-at : (m n : ℕ) → Waits m n k → has_true (of_showing n (Socket.watchers_of i v)) ≡ true
  watchers-at m n h =
      ap
        (λ (o : Option (Sock Packet)).
          has_true (of_showing n (elim o [ none ↦ [] | some y ↦ y.watchers ])))
        there
      ∙ h.traced

-- What a completion does to the page when both have listeners on the socket.
pub record IsShared (m i : ℕ) (r : TestCompleteData) (x : TraceResult) (q : Page) : Type 0 where
  pub waits : WaitsAt m q.trace.showing i q.world.service.sockets
  pub trace_result : q.trace.state.result ≡ some x
  pub trace_over : q.trace.state.is_running ≡ false
  pub runner : IsDone r q.world.state

module _ (url_hostname : Text → Option Text) (i : ℕ) (r : TestCompleteData) (x : Reading) where
  abbrev pub done : Page → Page
  done p = page_step url_hostname (arrive i (test_complete r) x) p

  -- On an open socket with listeners of the runner, and of the trace form that is shown, added while a
  -- trace ran: a completion, of a test of either form, becomes the result of both, and both are no
  -- longer running; and the socket is still one with such listeners, so the next one does the same.
  pub arrive-IsShared :
      (m : ℕ) (p : Page)
      → WaitsAt m p.trace.showing i p.world.service.sockets
      → IsShared m i r x.result (done p)
  unfolding page_step step message_of on_message trace_listen on_test_complete
  arrive-IsShared m p (k, there, h) =
      let v = p.world.service in
      let n = p.trace.showing in
      let bs = of_showing n (Socket.watchers_of i v) in
      let w = on_message (test_complete r) x bs (trace_world p.trace.state v) in
      let shows =
        each-Shows x.result bs (trace_world p.trace.state v) (watchers-at i k v there m n h) in
      let delivered =
        watch_all-WaitsAt m n w.listeners i (send_all w.sent v)
          (send_all-WaitsAt m n w.sent i v (k, there, h)) in
      let (l, there_still, waits) = delivered in
      let now_open = is_open-at i k v there h.is_open in
      let still_open = is_open-at i l (deliver n w v) there_still waits.is_open in
      rw (now_open, still_open)
        (record {
          waits = delivered;
          trace_result = shows.0;
          trace_over = shows.1;
          runner =
              listen_all-IsDone (Socket.listeners_of i (deliver n w v)) m r p.world.state
                (listeners-at i l (deliver n w v) there_still ∙ waits.listened);
        })
