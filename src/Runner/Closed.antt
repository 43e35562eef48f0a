-- ===== src/Runner/Closed.antt =====
-- What becomes of a socket that webClient/frontend/src/services/websocket.ts has disconnected, under
-- the events of webClient/frontend/src/components/TestRunner.tsx.
use waddle_perf.Common.{
  ℕ, zero, suc, List, [], ◌∷◌, map, Bool, true, false, not, ◌&&◌, ◌≡◌, refl, ap, ◌∙◌, Option, none,
  some, arith, at, at-end, at-append, if_intro, if◌then◌else◌, IfSome, Bool-cases, inl, inr,
}
use waddle_perf.Regex.{Text}
use waddle_perf.Socket
use waddle_perf.Socket.{Sock, Service, new_sock, change}
use waddle_perf.Runner.{
  Packet, of_form, World, Event, mount, unmount, visit, visited, stored, connected, connect_error,
  disconnected, message, submit, choose, close, again, connect_of, connect_error_of, message_of,
  initialize, initialized, handle_test_start, when, step, run, first_world,
}

abbrev pub open_at : ℕ → List (Sock Packet) → Bool
open_at i ks = elim (at i ks) [ none ↦ false | some k ↦ not k.closed ]

-- A change of an open socket leaves the closed ones alone.
change-closed :
    (f : Sock Packet → Sock Packet) (i j : ℕ) (ks : List (Sock Packet)) (k : Sock Packet)
    → at i ks ≡ some k
    → k.closed ≡ true
    → open_at j ks ≡ true
    → at i (change f j ks) ≡ some k
change-closed f i j [] k h c o = cc
change-closed f zero zero (x ∷ ks) k h c o = ground arith
change-closed f zero (suc j) (x ∷ ks) k h c o = h
change-closed f (suc i) zero (x ∷ ks) k h c o = h
change-closed f (suc i) (suc j) (x ∷ ks) k h c o = change-closed f i j ks k h c o

module _ (f : Sock Packet → Sock Packet) (same : (k : Sock Packet) → (f k).closed ≡ k.closed) where
  open_at-change : (i j : ℕ) (ks : List (Sock Packet)) → open_at i (change f j ks) ≡ open_at i ks
  open_at-change i j [] = refl
  open_at-change zero zero (x ∷ ks) = ap not (same x)
  open_at-change zero (suc j) (x ∷ ks) = refl
  open_at-change (suc i) zero (x ∷ ks) = refl
  open_at-change (suc i) (suc j) (x ∷ ks) = open_at-change i j ks

-- The current socket is open.
abbrev pub CurrentIsOpen : Service Packet → Type 0
CurrentIsOpen v = IfSome (λ j. open_at j v.sockets ≡ true) v.socket

module _ (old : List (Sock Packet)) where
  -- The closed sockets of `old` are where they were, and as they were.
  abbrev pub KeepsClosed : List (Sock Packet) → Type 0
  KeepsClosed ks =
      (i : ℕ) (k : Sock Packet) → at i old ≡ some k → k.closed ≡ true → at i ks ≡ some k

  abbrev pub Fine : Service Packet → Type 0
  Fine v = CurrentIsOpen v × KeepsClosed v.sockets

  current-change :
      (f : Sock Packet → Sock Packet)
      → ((k : Sock Packet) → (f k).closed ≡ k.closed)
      → (j : ℕ) (ks : List (Sock Packet)) (o : Option ℕ) → IfSome (λ i. open_at i ks ≡ true) o
      → IfSome (λ i. open_at i (change f j ks) ≡ true) o
  current-change f same j ks none c = tt
  current-change f same j ks (some i) c = open_at-change f same i j ks ∙ c

  change_at-Fine :
      (f : Sock Packet → Sock Packet)
      → ((k : Sock Packet) → (f k).closed ≡ k.closed)
      → (j : ℕ) (v : Service Packet) → open_at j v.sockets ≡ true
      → Fine v
      → Fine (Socket.change_at f j v)
  change_at-Fine f same j v open_j (c, h) = (
    current-change f same j v.sockets v.socket c,
    λ i k e closed. change-closed f i j v.sockets k (h i k e closed) closed open_j,
  )

  pub change_current-Fine :
      (f : Sock Packet → Sock Packet)
      → ((k : Sock Packet) → (f k).closed ≡ k.closed)
      → (o : Option ℕ) (v : Service Packet) → IfSome (λ j. open_at j v.sockets ≡ true) o
      → Fine v
      → Fine (Socket.change_current f o v)
  change_current-Fine f same none v c h = h
  change_current-Fine f same (some j) v c h = change_at-Fine f same j v c h

  connect-Fine : (t : Option Text) (v : Service Packet) → Fine v → Fine (Socket.connect t v)
  unfolding Socket.connect
  connect-Fine t v (c, h) = (
    ap (λ o. elim o [ none ↦ false | some k ↦ not k.closed ]) (at-end v.sockets (new_sock _)),
    λ i k e closed. at-append i v.sockets (new_sock _ ∷ []) k (h i k e closed),
  )

  disconnect-Fine :
      (o : Option ℕ) (v : Service Packet)
      → v.socket ≡ o
      → IfSome (λ j. open_at j v.sockets ≡ true) o
      → Fine v
      → Fine (Socket.disconnect v)
  unfolding Socket.disconnect
  disconnect-Fine none v e c (d, h) = rw e (tt, h)
  disconnect-Fine (some j) v e c (d, h) = rw e (
    tt,
    λ i k old_k closed.
        change-closed (λ x. record x { closed = true }) i j v.sockets k (h i k old_k closed) closed
          c,
  )

  -- A new component: the closed sockets stay as they were, and the current one is that of the new
  -- connection.
  at-abandon :
      (i : ℕ) (ks : List (Sock Packet)) (k : Sock Packet)
      → at i ks ≡ some k
      → k.closed ≡ true
      → at i (map Socket.abandon ks) ≡ some k
  unfolding Socket.abandon
  at-abandon i [] k h c = cc
  at-abandon zero (x ∷ ks) k h c =
      let closed = ap (λ o. elim o [ none ↦ false | some y ↦ y.closed ]) h ∙ c in
      ap (λ b. some (if b then x else record x { listeners = 0; settled = true })) closed ∙ h
  at-abandon (suc i) (x ∷ ks) k h c = at-abandon i ks k h c

  visited-Fine : (w : World) → Fine w.service → Fine (visited w).service
  unfolding visited initialize Socket.connect Socket.abandon_all
  visited-Fine w h =
      let v = Socket.abandon_all (Socket.disconnect w.service) in
      let left = disconnect-Fine w.service.socket w.service refl h.0 h in
      (
        ap (λ o. elim o [ none ↦ false | some k ↦ not k.closed ]) (at-end v.sockets (new_sock _)),
        λ i k e closed.
            at-append i v.sockets (new_sock _ ∷ []) k
              (at-abandon i (Socket.disconnect w.service).sockets k (left.1 i k e closed) closed),
      )

  add_listeners-Fine : (v : Service Packet) → Fine v → Fine (Socket.add_listeners v)
  unfolding Socket.add_listeners
  add_listeners-Fine v h = change_current-Fine _ (λ k. refl) v.socket v h.0 h

  pub start_test-Fine : (d : Packet) (v : Service Packet) → Fine v → Fine (Socket.start_test d v)
  unfolding Socket.start_test
  start_test-Fine d v h =
      if_intro Fine (Socket.is_there v.socket && v.is_connected) _ _
        (change_current-Fine _ (λ k. refl) v.socket v h.0 h) h

  -- What an event of an open socket does.
  when_open :
      (P : World → Type 0) (i : ℕ) (f : World → World) (w : World)
      → (open_at i w.service.sockets ≡ true → P (f w))
      → P w
      → P (when (Socket.is_open i w.service) f w)
  when_open P i f w p q = elim (Bool-cases (open_at i w.service.sockets)) [
    | inl e ↦ rw e (p e)
    | inr e ↦ rw e q
  ]

  abbrev pub WorldIsFine : World → Type 0
  WorldIsFine w = Fine w.service

  pub step-Fine : (e : Event) (w : World) → WorldIsFine w → WorldIsFine (step e w)
  unfolding step visited initialize initialized connect_of connect_error_of message_of
      handle_test_start Socket.on_connect Socket.on_connect_error Socket.on_disconnect
  step-Fine mount w h = connect-Fine w.access_token w.service h
  step-Fine unmount w h = disconnect-Fine w.service.socket w.service refl h.0 h
  step-Fine visit w h = visited-Fine w h
  step-Fine (connected i) w h =
      when_open WorldIsFine i (connect_of i) w
        (λ o.
          let settled = change_at-Fine Socket.settle (λ k. refl) i w.service o h in
          if_intro WorldIsFine (Socket.is_settled i w.service) _ _ settled
            (add_listeners-Fine (Socket.on_connect i w.service) settled))
        h
  step-Fine (connect_error i) w h =
      when_open WorldIsFine i (connect_error_of i) w
        (λ o.
          let settled = change_at-Fine Socket.settle (λ k. refl) i w.service o h in
          if_intro WorldIsFine (Socket.is_settled i w.service) _ _ settled settled)
        h
  step-Fine (disconnected i) w h = if_intro WorldIsFine (Socket.is_open i w.service) _ _ h h
  step-Fine (message i m) w h = if_intro WorldIsFine (Socket.is_open i w.service) _ _ h h
  step-Fine (submit d) w h =
      if_intro WorldIsFine (not w.state.ws_connected) _ _ (connect-Fine w.access_token w.service h)
        (start_test-Fine (of_form d) w.service h)
  step-Fine (stored t) w h = h
  step-Fine (choose tab) w h = h
  step-Fine close w h = h
  step-Fine again w h = h

  run-Fine : (es : List Event) (w : World) → WorldIsFine w → WorldIsFine (run es w)
  run-Fine [] w h = h
  run-Fine (e ∷ es) w h = run-Fine es (step e w) (step-Fine e w h)

-- In whatever order mounts, unmounts, connections, messages and submissions come: the current socket
-- is open, and once a socket is disconnected, nothing is sent over it, no listener is added to it and
-- it is never opened again: it stays as it was, whatever comes later.
run-IsClosed :
    (es fs : List Event)
    → IfSome
        (λ j. open_at j (run es first_world).service.sockets ≡ true)
        (run es first_world).service.socket
      × ((i : ℕ) (k : Sock Packet)
          → at i (run es first_world).service.sockets ≡ some k
          → k.closed ≡ true
          → at i (run fs (run es first_world)).service.sockets ≡ some k)
run-IsClosed es fs =
    let reached = run es first_world in
    let before = run-Fine [] es first_world (tt, λ i k e closed. cc) in
    (before.0, (run-Fine reached.service.sockets fs reached (before.0, λ i k e closed. e)).1)
