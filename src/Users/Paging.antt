-- ===== src/Users/Paging.antt =====
-- Reading all the pages of managerServer/frontend/src/pages/Users.tsx with "Next".
use waddle_perf.Common.{
  at, at-end, at-append, ℕ, zero, suc, ◌+◌, ◌-◌, ◌*◌, ◌/◌, ◌≤◌, ◌<◌, List, [], ◌∷◌, ◌++◌, length,
  take, drop, true, false, ltb, ltb→lt, if◌then◌else◌, Option, none, some, ◌≡◌, sym, ap, ◌∙◌, arith,
  inl, inr, Bool-cases, length-take, length-drop, drop-drop, take-all, take-drop, subst,
}
use waddle_perf.Types.{User}
use waddle_perf.Users.{list_users, Sent, Reply, ok, UsersState, initial, effect, receive}
use waddle_perf.Users.Screen.{next, replied, receive_sent, next_page, next_disabled, step}

-- A server with the users `all` that sends the page asked for, 50 users long where there are as many.
abbrev pub page_of : List User → ℕ → List User
page_of all p = take 50 (drop ((p - 1) * 50) all)

abbrev pub serve : List User → ℕ → Reply
serve all p = ok (record { users = page_of all p; total = length all; organizations = [] })

-- The reply to the call that the effect made last.
abbrev pub answer : List User → UsersState → UsersState
answer all s = step (replied s.newest (serve all s.page)) s

-- The users shown one page after the other, until "Next" is disabled; `none` when the fuel ends.
abbrev pub prepend : List User → Option (List User) → Option (List User)
prepend us none = none
prepend us (some vs) = some (us ++ vs)

unfoldable pub read_all : ℕ → List User → UsersState → Option (List User)
read_all zero all s = none
read_all (suc n) all s =
    let t = answer all s in
    let rest = read_all n all (step next t) in
    if next_disabled t then some t.users else prepend t.users rest

-- The call in the place `newest` is the one for the users of the page.
abbrev pub IsAsked : UsersState → Type 0
IsAsked s = at s.newest s.sent ≡ some (record { call = list_users s.page; page = s.page })

pub effect-IsAsked : (s : UsersState) → IsAsked (effect s)
unfolding effect
effect-IsAsked s =
    let asked : Sent = record { call = list_users s.page; page = s.page } in
    at-append (length s.sent) (s.sent ++ asked ∷ []) _ asked (at-end s.sent asked)

answer-eq :
    (all : List User) (s : UsersState)
    → IsAsked s
    → answer all s ≡ receive (list_users s.page) s.page (serve all s.page) s
unfolding step
answer-eq all s h = ap (λ o. receive_sent o (serve all s.page) s) h

-- What the page shows behind that reply.
abbrev shown : List User → UsersState → UsersState
shown all s = record s { users = page_of all s.page; total_users = length all; loading = false }

answer-shown : (all : List User) (s : UsersState) → IsAsked s → answer all s ≡ shown all s
unfolding receive
answer-shown all s h = answer-eq all s h

-- The users from the page of `s` on.
abbrev from_page : List User → ℕ → List User
from_page all p = drop ((p - 1) * 50) all

from_page-suc :
    (all : List User) (p : ℕ) → 1 ≤ p → drop 50 (from_page all p) ≡ from_page all (p + 1)
from_page-suc all p h = drop-drop 50 ((p - 1) * 50) all ∙ ap (λ k. drop k all) (omega arith)

abbrev Goal : ℕ → List User → UsersState → Type 0
Goal n all s = read_all n all s ≡ some (from_page all s.page)

abbrev look : ℕ → List User → UsersState → Option (List User)
look n all t =
    let rest = read_all n all (step next t) in
    if next_disabled t then some t.users else prepend t.users rest

cut_short : (us : List User) → ltb (length (take 50 us)) 50 ≡ true → length us ≤ 50
cut_short us h =
    let less : length (take 50 us) < 50 = ltb→lt _ _ h in omega (arith, length-take 50 us)

cut_long :
    (n : ℕ) (us : List User)
    → ltb (length (take 50 us)) 50 ≡ false
    → length us < suc n * 50
    → length (drop 50 us) < n * 50
cut_long n us h fuel =
    let more : 50 ≤ length (take 50 us) = ground arith in
    omega (arith, length-take 50 us, length-drop 50 us)

read_all_from :
    (n : ℕ) (all : List User) (s : UsersState)
    → IsAsked s
    → 1 ≤ s.page
    → length (from_page all s.page) < n * 50
    → Goal n all s
unfolding read_all next_disabled step next_page effect
read_all_from zero all s asked first fuel = ground arith
read_all_from (suc n) all s asked first fuel =
    let us = from_page all s.page in
    ap (look n all) (answer-shown all s asked) ∙ elim (Bool-cases (ltb (length (take 50 us)) 50)) [
      | inl few ↦
          let short : length us ≤ 50 = cut_short us few in rw few (ap some (take-all 50 us short))
      | inr many ↦
          let t : UsersState = effect (record (shown all s) { page = s.page + 1 }) in
          let rest : drop 50 us ≡ from_page all (s.page + 1) = from_page-suc all s.page first in
          let less : length (drop 50 us) < n * 50 = cut_long n us many fuel in
          let later : Goal n all t =
            read_all_from n all t (effect-IsAsked (record (shown all s) { page = s.page + 1 }))
              (omega arith) (subst (λ vs. length vs < n * 50) rest less) in
          rw many
            (ap (prepend (take 50 us)) (later ∙ ap some (sym rest)) ∙ ap some (take-drop 50 us))
    ]

-- On a server that sends the pages of a list of users, going on with "Next" until it is disabled shows
-- each of the users once, in the order of the list; for n users, n / 50 + 1 pages are enough.
pub read_all_complete :
    (all : List User) → read_all (length all / 50 + 1) all (effect initial) ≡ some all
unfolding effect
read_all_complete all =
    read_all_from (length all / 50 + 1) all (effect initial) (effect-IsAsked initial) (omega arith)
      (omega arith)
