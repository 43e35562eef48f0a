-- ===== src/Users/Newest.antt =====
-- Which call the table of managerServer/frontend/src/pages/Users.tsx waits for.
use waddle_perf.Common.{
  at, at-append, ℕ, List, [], ◌∷◌, ◌++◌, not, ◌||◌, ◌==◌, false, Bool, Option, none, some, ◌≡◌, ap,
  if_intro,
}
use waddle_perf.Types.{User}
use waddle_perf.Users.{
  Call, list_users, list_organizations, create_user, update_user, delete_user, Sent, Body, Reply,
  ok, failed, UsersState, initial, effect, receive, open_edit_modal, handle_create, update_call,
  handle_edit, handle_delete,
}
use waddle_perf.Users.Screen.{
  Event, open_create, close_create, submit_create, close_edit, submit_edit, previous, next,
  change_create, change_edit, click_edit, click_delete, replied, row_user, edit_row, delete_row,
  edit_shown, previous_page, next_page, next_disabled, receive_sent, step, run,
}
use waddle_perf.Users.Paging.{IsAsked, effect-IsAsked}

-- One more call leaves the newest one where it is.
sent-IsAsked :
    (x : Sent) (s : UsersState) → IsAsked s → IsAsked (record s { sent = s.sent ++ x ∷ [] })
sent-IsAsked x s h =
    at-append s.newest s.sent (x ∷ []) (record { call = list_users s.page; page = s.page }) h

receive-IsAsked :
    (c : Call) (p : ℕ) (r : Reply) (s : UsersState) → IsAsked s → IsAsked (receive c p r s)
unfolding receive
receive-IsAsked (list_users n) p (ok b) s h = h
receive-IsAsked (list_users n) p (failed e) s h = h
receive-IsAsked list_organizations p (ok b) s h = h
receive-IsAsked list_organizations p (failed e) s h = h
receive-IsAsked (create_user f) p (ok b) s h = sent-IsAsked _ s h
receive-IsAsked (create_user f) p (failed e) s h = h
receive-IsAsked (update_user i f) p (ok b) s h = sent-IsAsked _ s h
receive-IsAsked (update_user i f) p (failed e) s h = h
receive-IsAsked (delete_user i) p (ok b) s h = sent-IsAsked _ s h
receive-IsAsked (delete_user i) p (failed e) s h = h

receive_sent-IsAsked :
    (o : Option Sent) (r : Reply) (s : UsersState) → IsAsked s → IsAsked (receive_sent o r s)
receive_sent-IsAsked none r s h = h
receive_sent-IsAsked (some x) r s h = receive-IsAsked x.call x.page r s h

edit_row-IsAsked : (o : Option User) (s : UsersState) → IsAsked s → IsAsked (edit_row o s)
unfolding open_edit_modal
edit_row-IsAsked none s h = h
edit_row-IsAsked (some u) s h = h

delete_row-IsAsked :
    (b : Bool) (o : Option User) (s : UsersState) → IsAsked s → IsAsked (delete_row b o s)
unfolding handle_delete
delete_row-IsAsked b none s h = h
delete_row-IsAsked b (some u) s h = if_intro IsAsked (not b) _ _ h (sent-IsAsked _ s h)

update_call-IsAsked : (o : Option User) (s : UsersState) → IsAsked s → IsAsked (update_call o s)
update_call-IsAsked none s h = h
update_call-IsAsked (some u) s h = sent-IsAsked _ s h

step-IsAsked : (e : Event) (s : UsersState) → IsAsked s → IsAsked (step e s)
unfolding step handle_create handle_edit previous_page next_page
step-IsAsked open_create s h = h
step-IsAsked close_create s h = h
step-IsAsked submit_create s h = if_intro IsAsked s.show_create_modal _ _ (sent-IsAsked _ s h) h
step-IsAsked close_edit s h = h
step-IsAsked submit_edit s h =
    if_intro IsAsked (edit_shown s) _ _ (update_call-IsAsked s.current_user s h) h
step-IsAsked previous s h =
    if_intro IsAsked (s.loading || s.page == 1) _ _ h (effect-IsAsked (record s { page = _ }))
step-IsAsked next s h =
    if_intro IsAsked (next_disabled s) _ _ h (effect-IsAsked (record s { page = _ }))
step-IsAsked (change_create e) s h = if_intro IsAsked s.show_create_modal _ _ h h
step-IsAsked (change_edit e) s h = if_intro IsAsked (edit_shown s) _ _ h h
step-IsAsked (click_edit i) s h = edit_row-IsAsked (row_user i s) s h
step-IsAsked (click_delete b i) s h = delete_row-IsAsked b (row_user i s) s h
step-IsAsked (replied i r) s h = receive_sent-IsAsked (at i s.sent) r s h

run-IsAsked : (es : List Event) (s : UsersState) → IsAsked s → IsAsked (run es s)
run-IsAsked [] s h = h
run-IsAsked (e ∷ es) s h = run-IsAsked es (step e s) (step-IsAsked e s h)

-- The page behind its first render and some events.
abbrev pub after : List Event → UsersState
after es = run es (effect initial)

-- The last call of the effect asks for the page whose number is shown, and its answer `b` is what the
-- table then shows, with nothing loading and the number of the page as it was.
pub record IsAnswered (s : UsersState) (b : Body) : Type 0 where
  pub asked : IsAsked s
  pub users : (step (replied s.newest (ok b)) s).users ≡ b.users
  pub total : (step (replied s.newest (ok b)) s).total_users ≡ b.total
  pub loaded : (step (replied s.newest (ok b)) s).loading ≡ false
  pub same_page : (step (replied s.newest (ok b)) s).page ≡ s.page

-- After any events, also with replies in any order and calls that ask for an older page again, the
-- last call of the effect asks for the page whose number is shown, and its answer is what the table
-- then shows, with nothing loading and the number of the page as it was.
pub run-newest_users : (es : List Event) (b : Body) → IsAnswered (after es) b
unfolding step receive
run-newest_users es b =
    let s = after es in
    let asked = run-IsAsked es (effect initial) (effect-IsAsked initial) in
    let answered = λ (o : Option Sent). receive_sent o (ok b) s in
    record {
      asked = asked;
      users = ap (λ o. (answered o).users) asked;
      total = ap (λ o. (answered o).total_users) asked;
      loaded = ap (λ o. (answered o).loading) asked;
      same_page = ap (λ o. (answered o).page) asked;
    }
