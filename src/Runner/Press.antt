-- ===== src/Runner/Press.antt =====
-- What a click on "Start Test" does, from the form of
-- webClient/frontend/src/components/TestForm.tsx to the socket of
-- webClient/frontend/src/services/websocket.ts.
use Prim.Native.String.{String}
use waddle_perf.Common.{
  at, ℕ, zero, suc, List, [], ◌∷◌, true, ◌≡◌, ◌≢◌, ◌⊎◌, ap, ◌∙◌, inl, inr, Option, none, some,
  Option-cases,
}
use waddle_perf.Regex.{Text}
use waddle_perf.Form.{FormState, TestData, Submission, test_data, handle_submit}
use waddle_perf.Form.Submit.{IsSubmittable, handle_submit_iff, handle_submit_complete}
use waddle_perf.Form.Refuse.{handle_submit-IsRefused}
use waddle_perf.Socket
use waddle_perf.Socket.{Sock, Service, change}
use waddle_perf.Runner.{Packet, of_form, World, submit, handle_test_start, step}
use waddle_perf.Runner.Page.{Page, press, submitted, can_press, page_step}

at-change :
    (f : Sock Packet → Sock Packet) (i : ℕ) (ks : List (Sock Packet)) (k : Sock Packet)
    → at i ks ≡ some k
    → at i (change f i ks) ≡ some (f k)
at-change f i [] k h = cc
at-change f zero (x ∷ ks) k h =
    ap (λ (o : Option (Sock Packet)). elim o [ none ↦ none | some y ↦ some (f y) ]) h
at-change f (suc i) (x ∷ ks) k h = at-change f i ks k h

abbrev pub forget_error : FormState → FormState
forget_error f = record f { validation_error = "" }

-- The socket with one more test sent, the newest one first.
abbrev pub and_sent : TestData → Sock Packet → Sock Packet
and_sent d k = record k { sent = of_form d ∷ k.sent }

-- The runner has a connection, over the socket `k` in place `i`.
pub record IsOnline (w : World) (i : ℕ) (k : Sock Packet) : Type 0 where
  pub shown : w.state.ws_connected ≡ true
  pub current : w.service.socket ≡ some i
  pub connected : w.service.is_connected ≡ true
  pub there : at i w.service.sockets ≡ some k

submit-online :
    (d : TestData) (w : World) (i : ℕ) (k : Sock Packet)
    → IsOnline w i k
    → (step (submit d) w ≡ record w { service = Socket.change_at (and_sent d) i w.service })
unfolding step handle_test_start Socket.start_test
submit-online d w i k h = rw (h.shown, h.current, h.connected)

module _ (url_hostname : Text → Option Text) (p : Page) where
  abbrev pub pressed : Page
  pressed = page_step url_hostname press p

  -- The test of the fields goes out over the socket, and nothing else changes.
  abbrev pub GoesOut : ℕ → Sock Packet → Type 0
  GoesOut i k =
      IsSubmittable url_hostname p.form
      × (pressed.form ≡ forget_error p.form)
      × (at i pressed.world.service.sockets ≡ some (and_sent (test_data (forget_error p.form)) k))
      × (pressed.world.state ≡ p.world.state)

  -- Nothing goes out, and the form says why.
  abbrev pub IsHeldBack : Type 0
  IsHeldBack =
      (¬ IsSubmittable url_hostname p.form)
      × (pressed.world ≡ p.world)
      × ((e : String) × (e ≢ "") × (pressed.form ≡ record p.form { validation_error = e }))

  press-submitted :
      (x : Submission)
      → can_press p ≡ true
      → handle_submit url_hostname p.form ≡ x
      → pressed ≡ submitted x p
  unfolding page_step
  press-submitted x enabled same = rw (enabled, same)

  -- With a connection, a click on the enabled button sends the test of the fields over the current
  -- socket, if every field is accepted, and the page goes on to show what it showed; otherwise it
  -- sends nothing, leaves the fields as they are, and shows a message that is not empty.
  pub press-Outcome :
      (i : ℕ) (k : Sock Packet)
      → can_press p ≡ true
      → IsOnline p.world i k
      → GoesOut i k ⊎ IsHeldBack
  press-Outcome i k enabled h = elim (Option-cases (handle_submit url_hostname p.form).1) [
    | inl refused ↦
        let (e, ne, same) = handle_submit-IsRefused url_hostname p.form refused in
        let page = press-submitted _ enabled same in
        inr (
          λ ok.
              let complete =
                ap (λ (x : Submission). x.1) (handle_submit_complete url_hostname p.form ok) in
              cc,
          ap (λ (q : Page). q.world) page,
          (e, ne, ap (λ (q : Page). q.form) page),
        )
    | inr (d, sent) ↦
        let (ok, _) = (handle_submit_iff url_hostname p.form d).0 sent in
        let page = press-submitted _ enabled (handle_submit_complete url_hostname p.form ok) in
        let out = submit-online (test_data (forget_error p.form)) p.world i k h in
        inl (
          ok,
          ap (λ (q : Page). q.form) page,
          ap (λ (q : Page). at i q.world.service.sockets) page
              ∙ ap (λ (w : World). at i w.service.sockets) out
              ∙ at-change (and_sent _) i p.world.service.sockets k h.there,
          ap (λ (q : Page). q.world.state) page ∙ ap (λ (w : World). w.state) out,
        )
  ]
