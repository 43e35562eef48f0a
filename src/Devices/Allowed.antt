-- ===== src/Devices/Allowed.antt =====
-- Which devices managerServer/frontend/src/pages/Devices.tsx asks to deactivate and reactivate.
use waddle_perf.Common.{
  at, IfSome, at-IfSome, List, [], ◌∷◌, Bool, true, false, not, Option, none, some, ◌==◌, ◌≡◌, refl,
  All, All-append, if_intro, Bool-cases, inl, inr,
}
use waddle_perf.Types.{User}
use waddle_perf.Devices.{
  Device, Query, Answer, found, failed, DevicesState, query_of, effect, receive, Event, edit_search,
  edit_status, previous, next, refetch, replied, receive_at, step, can_manage_devices,
}
use waddle_perf.Devices.Page.{Button, deactivate, reactivate, button_of}
use waddle_perf.Devices.Actions.{
  Action, ActionReply, done, refused, PageState, mounted, ask, handle_deactivate, handle_reactivate,
  receive_action, PageEvent, list_event, clicked, settled, counted, row_device, press_row,
  receive_at_place, list_step, page_step, page_run,
}

abbrev pub is_deactivate : Button → Bool
is_deactivate deactivate = true
is_deactivate reactivate = false

module _ (user : Option User) (P : Device → Type 0) where
  -- The user may manage devices, and the device is one with `P` that is active exactly if the request
  -- deactivates it.
  pub record IsAllowed (a : Action) : Type 0 where
    pub manages : can_manage_devices user ≡ true
    pub device : Device
    pub has : P device
    pub same : device.id ≡ a.device_id
    pub active : device.is_active ≡ is_deactivate a.button

  abbrev pub AnswerHas : Answer → Type 0
  AnswerHas (found devices pages) = All P devices
  AnswerHas (failed e) = Unit

  abbrev Safe : PageState → Type 0
  Safe s = All P s.base.devices × All IsAllowed s.actions

  module _ (serve : Query → Answer) (has : (q : Query) → AnswerHas (serve q)) where
    receive-has :
        (a : Answer) (s : DevicesState)
        → AnswerHas a
        → All P s.devices
        → All P (receive a s).devices
    unfolding receive
    receive-has (found devices pages) s a h = a
    receive-has (failed e) s a h = h

    receive_at-has :
        (o : Option Query) (s : DevicesState)
        → All P s.devices
        → All P (receive_at serve o s).devices
    receive_at-has none s h = h
    receive_at-has (some q) s h = receive-has (serve q) s (has q) h

    list_step-has :
        (e : Event) (s : DevicesState) → All P s.devices → All P (list_step user serve e s).devices
    unfolding step effect
    list_step-has (edit_search term) s h = h
    list_step-has (edit_status status) s h = h
    list_step-has previous s h =
        if_intro (λ (t : DevicesState). All P t.devices) (s.page == 1) _ _ h h
    list_step-has next s h =
        if_intro (λ (t : DevicesState). All P t.devices) (s.page == s.total_pages) _ _ h h
    list_step-has (refetch q) s h = h
    list_step-has (replied i) s h = receive_at-has (at i s.requests) s h

    ask-Safe :
        (b : Button) (d : Device) (s : PageState)
        → can_manage_devices user ≡ true
        → P d
        → d.is_active ≡ is_deactivate b
        → Safe s
        → Safe (ask b d.id s)
    ask-Safe b d s m p a (h, k) =
        let one : IsAllowed (record { button = b; device_id = d.id; query = query_of s.base }) =
          record { manages = m; device = d; has = p; same = refl; active = a } in
        (h, All-append IsAllowed s.actions _ k (one, tt))

    press_row-Safe :
        (confirmed : Bool) (o : Option Device) (s : PageState)
        → IfSome P o
        → Safe s
        → Safe (press_row (can_manage_devices user) confirmed o s)
    unfolding button_of handle_deactivate handle_reactivate
    press_row-Safe confirmed none s m h = h
    press_row-Safe confirmed (some d) s m h = elim (Bool-cases (can_manage_devices user)) [
      | inr off ↦ rw off h
      | inl on ↦ elim (Bool-cases d.is_active) [
        | inl a ↦
            rw (on, a) (if_intro Safe (not confirmed) _ _ h (ask-Safe deactivate d s on m a h))
        | inr a ↦ rw (on, a) (ask-Safe reactivate d s on m a h)
      ]
    ]

    receive_at_place-Safe :
        (o : Option Action) (r : ActionReply) (s : PageState)
        → Safe s
        → Safe (receive_at_place o r s)
    unfolding receive_action
    receive_at_place-Safe none r s h = h
    receive_at_place-Safe (some a) done s h = h
    receive_at_place-Safe (some a) (refused e) s h = h

    page_step-Safe : (e : PageEvent) (s : PageState) → Safe s → Safe (page_step user serve e s)
    unfolding page_step
    page_step-Safe (list_event e) s (h, k) = (list_step-has e s.base h, k)
    page_step-Safe (clicked confirmed i) s h =
        press_row-Safe confirmed (row_device i s) s
          (if_intro (IfSome P) s.base.loading _ _ tt (at-IfSome P i s.base.devices h.0)) h
    page_step-Safe (settled i r) s h = receive_at_place-Safe (at i s.actions) r s h
    page_step-Safe (counted none) s h = h
    page_step-Safe (counted (some d)) s h = h

    page_run-Safe : (es : List PageEvent) (s : PageState) → Safe s → Safe (page_run user serve es s)
    page_run-Safe [] s h = h
    page_run-Safe (e ∷ es) s h = page_run-Safe es (page_step user serve e s) (page_step-Safe e s h)

    -- Whatever is clicked and in whatever order the replies come: the page asks the server to deactivate
    -- or reactivate a device only for a user who may manage devices, and only for a device that the
    -- server had sent; a device that is deactivated was active then, one that is reactivated was not.
    -- What all devices of the server's answers have, the device has.
    pub page_run-IsAllowed :
        (es : List PageEvent) → All IsAllowed (page_run user serve es mounted).actions
    unfolding effect
    page_run-IsAllowed es = (page_run-Safe es mounted (tt, tt)).1
