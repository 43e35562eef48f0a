-- ===== src/Users/Laws.antt =====
-- Which calls the page managerServer/frontend/src/pages/Users.tsx makes.
use waddle_perf.Common.{
  at, IfSome, at-IfSome, ℕ, List, [], ◌∷◌, ◌++◌, map, Bool, true, not, ◌||◌, ◌==◌, Option, none,
  some, ◌≡◌, refl, ap, ◌∙◌, All, All-append, if_intro,
}
use waddle_perf.Types.{User, UpdateUserRequest}
use waddle_perf.Users.{
  Call, list_users, list_organizations, create_user, update_user, delete_user, Sent, Reply, ok,
  failed, UsersState, initial, effect, receive, form_of, open_edit_modal, handle_create,
  update_call, handle_edit, handle_delete,
}
use waddle_perf.Users.Screen.{
  Edit, edit_update, Event, open_create, close_create, submit_create, close_edit, submit_edit,
  previous, next, change_create, change_edit, click_edit, click_delete, replied, row_user, edit_row,
  delete_row, edit_shown, previous_page, next_page, next_disabled, receive_sent, step, run,
}

module _ (P : User → Type 0) where
  -- A call that changes or deletes a user is for the number of a user with `P`.
  abbrev pub IsFor : ℕ → Type 0
  IsFor i = (u : User) × P u × (u.id ≡ i)

  abbrev pub CallFor : Call → Type 0
  CallFor (update_user i f) = IsFor i
  CallFor (delete_user i) = IsFor i
  CallFor _ = Unit

  abbrev pub SentFor : Sent → Type 0
  SentFor x = CallFor x.call

  -- All users in the events' replies have `P`.
  abbrev pub ReplyHas : Reply → Type 0
  ReplyHas (ok b) = All P b.users
  ReplyHas (failed e) = Unit

  abbrev pub EventHas : Event → Type 0
  EventHas (replied i r) = ReplyHas r
  EventHas _ = Unit

  abbrev Safe : UsersState → Type 0
  Safe s = All P s.users × IfSome P s.current_user × All SentFor s.sent

  sent-one :
      (xs : List Sent) (c : Call) (p : ℕ)
      → All SentFor xs
      → CallFor c
      → All SentFor (xs ++ record { call = c; page = p } ∷ [])
  sent-one xs c p h k = All-append SentFor xs (record { call = c; page = p } ∷ []) h (k, tt)

  effect-Safe : (s : UsersState) → Safe s → Safe (effect s)
  unfolding effect
  effect-Safe s (u, c, h) = (
    u,
    c,
    sent-one (s.sent ++ record { call = list_users s.page; page = s.page } ∷ []) list_organizations
        s.page (sent-one s.sent (list_users s.page) s.page h tt) tt,
  )

  receive-Safe :
      (k : Call) (p : ℕ) (r : Reply) (s : UsersState) → ReplyHas r → Safe s → Safe (receive k p r s)
  unfolding receive
  receive-Safe (list_users n) p (ok b) s has (u, c, h) = (has, c, h)
  receive-Safe (list_users n) p (failed e) s has h = h
  receive-Safe list_organizations p (ok b) s has h = h
  receive-Safe list_organizations p (failed e) s has h = h
  receive-Safe (create_user f) p (ok b) s has (u, c, h) =
      (u, c, sent-one s.sent (list_users p) p h tt)
  receive-Safe (create_user f) p (failed e) s has h = h
  receive-Safe (update_user i f) p (ok b) s has (u, c, h) =
      (u, tt, sent-one s.sent (list_users p) p h tt)
  receive-Safe (update_user i f) p (failed e) s has h = h
  receive-Safe (delete_user i) p (ok b) s has (u, c, h) =
      (u, c, sent-one s.sent (list_users p) p h tt)
  receive-Safe (delete_user i) p (failed e) s has h = h

  row_user-IfSome : (i : ℕ) (s : UsersState) → Safe s → IfSome P (row_user i s)
  row_user-IfSome i s h = if_intro (IfSome P) s.loading _ _ tt (at-IfSome P i s.users h.0)

  edit_row-Safe : (o : Option User) (s : UsersState) → IfSome P o → Safe s → Safe (edit_row o s)
  unfolding open_edit_modal
  edit_row-Safe none s m h = h
  edit_row-Safe (some v) s m (u, c, h) = (u, m, h)

  delete_row-Safe :
      (b : Bool) (o : Option User) (s : UsersState) → IfSome P o → Safe s → Safe (delete_row b o s)
  unfolding handle_delete
  delete_row-Safe b none s m h = h
  delete_row-Safe b (some v) s m (u, c, h) =
      if_intro Safe (not b) _ _ (u, c, h)
        (u, c, sent-one s.sent (delete_user v.id) s.page h (v, m, refl))

  update_call-Safe :
      (o : Option User) (s : UsersState) → IfSome P o → Safe s → Safe (update_call o s)
  update_call-Safe none s m h = h
  update_call-Safe (some v) s m (u, c, h) =
      (u, c, sent-one s.sent (update_user v.id s.edit_form_data) s.page h (v, m, refl))

  receive_sent-Safe :
      (o : Option Sent) (r : Reply) (s : UsersState)
      → ReplyHas r
      → Safe s
      → Safe (receive_sent o r s)
  receive_sent-Safe none r s has h = h
  receive_sent-Safe (some x) r s has h = receive-Safe x.call x.page r s has h

  step-Safe : (e : Event) (s : UsersState) → EventHas e → Safe s → Safe (step e s)
  unfolding step handle_create handle_edit previous_page next_page
  step-Safe open_create s has h = h
  step-Safe close_create s has h = h
  step-Safe submit_create s has (u, c, h) =
      if_intro Safe s.show_create_modal _ _
        (u, c, sent-one s.sent (create_user s.form_data) s.page h tt) (u, c, h)
  step-Safe close_edit s has h = h
  step-Safe submit_edit s has h =
      if_intro Safe (edit_shown s) _ _ (update_call-Safe s.current_user s h.1 h) h
  step-Safe previous s has h =
      if_intro Safe (s.loading || s.page == 1) _ _ h (effect-Safe (record s { page = _ }) h)
  step-Safe next s has h =
      if_intro Safe (next_disabled s) _ _ h (effect-Safe (record s { page = _ }) h)
  step-Safe (change_create e) s has h = if_intro Safe s.show_create_modal _ _ h h
  step-Safe (change_edit e) s has h = if_intro Safe (edit_shown s) _ _ h h
  step-Safe (click_edit i) s has h = edit_row-Safe (row_user i s) s (row_user-IfSome i s h) h
  step-Safe (click_delete b i) s has h =
      delete_row-Safe b (row_user i s) s (row_user-IfSome i s h) h
  step-Safe (replied i r) s has h = receive_sent-Safe (at i s.sent) r s has h

  run-Safe : (es : List Event) (s : UsersState) → All EventHas es → Safe s → Safe (run es s)
  run-Safe [] s has h = h
  run-Safe (e ∷ es) s (p, has) h = run-Safe es (step e s) has (step-Safe e s p h)

  -- Whatever is clicked and typed, and in whatever order the replies come: if all users that the
  -- server sends have a property, each call that changes or deletes a user is for the number of a
  -- user with the property.
  pub run-SentFor : (es : List Event) → All EventHas es → All SentFor (run es (effect initial)).sent
  run-SentFor es has = (run-Safe es (effect initial) has (effect-Safe initial (tt, tt, tt))).2

-- The edits of a form one after the other.
abbrev pub edit_all : List Edit → UpdateUserRequest → UpdateUserRequest
edit_all [] f = f
edit_all (e ∷ es) f = edit_all es (edit_update e f)

abbrev pub edits : List Edit → List Event
edits es = map change_edit es

-- `s` with the modal shown for the user `u`, and the form `f` in it.
abbrev pub editing : User → UpdateUserRequest → UsersState → UsersState
editing u f s = record s { current_user = some u; edit_form_data = f; show_edit_modal = true }

run-edits :
    (es : List Edit) (u : User) (f : UpdateUserRequest) (s : UsersState)
    → run (edits es) (editing u f s) ≡ editing u (edit_all es f) s
unfolding step
run-edits [] u f s = refl
run-edits (e ∷ es) u f s = run-edits es u (edit_update e f) s

run-append : (ds es : List Event) (s : UsersState) → run (ds ++ es) s ≡ run es (run ds s)
run-append [] es s = refl
run-append (d ∷ ds) es s = run-append ds es (step d s)

-- The events of an edit: the button of the row `i`, the edits of the form, and its submission.
abbrev pub edit_session : ℕ → List Edit → List Event
edit_session i es = click_edit i ∷ edits es ++ submit_edit ∷ []

-- Opening a row for an edit, changing its fields and submitting the form makes one call, which
-- changes the user of the row to what the form holds: the user's own fields with the edits.
pub run-edit_session :
    (i : ℕ) (es : List Edit) (u : User) (s : UsersState)
    → row_user i s ≡ some u
    → (run (edit_session i es) s).sent
      ≡ s.sent ++ record { call = update_user u.id (edit_all es (form_of u)); page = s.page } ∷ []
unfolding step open_edit_modal handle_edit
run-edit_session i es u s h =
    let opened : step (click_edit i) s ≡ editing u (form_of u) s = ap (λ o. edit_row o s) h in
    let submitted = λ (t : UsersState). (step submit_edit t).sent in
    ap (λ t. (run (edits es ++ submit_edit ∷ []) t).sent) opened
    ∙ ap (λ t. t.sent) (run-append (edits es) (submit_edit ∷ []) (editing u (form_of u) s))
    ∙ ap submitted (run-edits es u (form_of u) s)
