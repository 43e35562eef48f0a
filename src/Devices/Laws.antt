-- ===== src/Devices/Laws.antt =====
-- What managerServer/frontend/src/pages/Devices.tsx shows of the replies to its requests.
use waddle_perf.Common.{
  at, at-end, at-append, ℕ, ◌+◌, ◌-◌, ◌*◌, ◌≤◌, ◌<◌, List, [], ◌∷◌, ◌==◌, Option, none, some, ◌≡◌,
  refl, ap, arith, if_intro,
}
use waddle_perf.Devices.{
  Device, Query, Answer, found, failed, DevicesState, query_of, effect, initial, receive, Event,
  edit_search, edit_status, previous, next, refetch, replied, receive_at, step, run, LastSeen,
  minutes_ago, hours_ago, days_ago, format_minutes,
}

-- The request that the effect sent last asks for what the fields on the page say.
abbrev pub IsInStep : DevicesState → Type 0
IsInStep s = at s.newest s.requests ≡ some (query_of s)

effect-IsInStep : (s : DevicesState) → IsInStep (effect s)
unfolding effect
effect-IsInStep s = at-end s.requests (query_of s)

module _ (serve : Query → Answer) where
  receive-IsInStep : (a : Answer) (s : DevicesState) → IsInStep s → IsInStep (receive a s)
  unfolding receive
  receive-IsInStep (found devices pages) s h = h
  receive-IsInStep (failed e) s h = h

  receive_at-IsInStep :
      (o : Option Query) (s : DevicesState) → IsInStep s → IsInStep (receive_at serve o s)
  receive_at-IsInStep none s h = h
  receive_at-IsInStep (some q) s h = receive-IsInStep (serve q) s h

  step-IsInStep : (e : Event) (s : DevicesState) → IsInStep s → IsInStep (step serve e s)
  unfolding step
  step-IsInStep (edit_search term) s h = effect-IsInStep (record s { search_term = term; page = 1 })
  step-IsInStep (edit_status t) s h = effect-IsInStep (record s { status_filter = t; page = 1 })
  step-IsInStep previous s h =
      if_intro IsInStep (s.page == 1) _ _ h (effect-IsInStep (record s { page = s.page - 1 }))
  step-IsInStep next s h =
      if_intro IsInStep (s.page == s.total_pages) _ _ h
        (effect-IsInStep (record s { page = s.page + 1 }))
  step-IsInStep (refetch q) s h = at-append s.newest s.requests (q ∷ []) (query_of s) h
  step-IsInStep (replied i) s h = receive_at-IsInStep (at i s.requests) s h

  run-IsInStep : (es : List Event) (s : DevicesState) → IsInStep s → IsInStep (run serve es s)
  run-IsInStep [] s h = h
  run-IsInStep (e ∷ es) s h = run-IsInStep es (step serve e s) (step-IsInStep e s h)

  -- The page behind its first render and some events.
  abbrev pub after : List Event → DevicesState
  after es = run serve es (effect initial)

  -- After any events, also with replies in any order and requests that are sent once more, the reply
  -- to the request that the effect sent last puts in what the server answers to the search, the
  -- status and the page in the fields.
  pub run-newest :
      (es : List Event)
      → step serve (replied (after es).newest) (after es)
        ≡ receive (serve (query_of (after es))) (after es)
  unfolding step
  run-newest es =
      ap (λ o. receive_at serve o (after es))
        (run-IsInStep es (effect initial) (effect-IsInStep initial))

  -- A reply to any request, also to an older one than the last, replaces the devices on the page and
  -- leaves the fields as they are.
  step-replied :
      (i : ℕ) (q : Query) (devices : List Device) (pages : ℕ) (s : DevicesState)
      → at i s.requests ≡ some q
      → serve q ≡ found devices pages
      → ((step serve (replied i) s).devices ≡ devices)
        × (query_of (step serve (replied i) s) ≡ query_of s)
  unfolding step receive
  step-replied i q devices pages s h e = rw (h, e) (refl, refl)

-- The unit of the column "Last Seen" in minutes, and how many of it are shown.
abbrev pub unit_of : LastSeen → ℕ × ℕ
unit_of (minutes_ago n) = (1, n)
unit_of (hours_ago n) = (60, n)
unit_of (days_ago n) = (1440, n)
unit_of _ = (1, 0)

-- The minutes, hours or days that the column "Last Seen" shows are the whole ones of the time that
-- has passed.
format_minutes-unit :
    (m : ℕ)
    → ((unit_of (format_minutes m)).0 * (unit_of (format_minutes m)).1 ≤ m)
      × (m
          < (unit_of (format_minutes m)).0 * (unit_of (format_minutes m)).1
            + (unit_of (format_minutes m)).0)
unfolding format_minutes
format_minutes-unit m = (ground arith, ground arith)
