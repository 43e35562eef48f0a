-- ===== src/Stats/Errors.antt =====
-- Errors and replies on the page managerServer/frontend/src/pages/Statistics.tsx.
use Prim.Native.String.{String}
use text.Mathlib.Text.{◌==◌ as str_eq}
use waddle_perf.Common.{
  at, ℕ, List, [], ◌∷◌, false, ◌==◌, Option, none, some, ◌≡◌, refl, if_intro, map, take,
}
use waddle_perf.Pages.{error_text-shown}
use waddle_perf.Regex.{Text}
use waddle_perf.Stats.{Doubles, filtered_tests}
use waddle_perf.Stats.Screen.{
  StatisticsState, Answer, found, failed, load_statistics, receive, receive_at, Event, edit_device,
  edit_type, choose_limit, refresh, replied, step, run, row, content_of, view,
}

-- The page shows an error message.
abbrev pub ShowsError : StatisticsState → Type 0
ShowsError s = str_eq s.error "" ≡ false

receive-ShowsError : (a : Answer) (s : StatisticsState) → ShowsError s → ShowsError (receive a s)
unfolding receive
receive-ShowsError (found results) s h = h
receive-ShowsError (failed e) s h = error_text-shown "Failed to load statistics" e refl

receive_at-ShowsError :
    (serve : ℕ → Answer) (o : Option ℕ) (s : StatisticsState)
    → ShowsError s
    → ShowsError (receive_at serve o s)
receive_at-ShowsError serve none s h = h
receive_at-ShowsError serve (some n) s h = receive-ShowsError (serve n) s h

step-ShowsError :
    (serve : ℕ → Answer) (e : Event) (s : StatisticsState)
    → ShowsError s
    → ShowsError (step serve e s)
unfolding step load_statistics
step-ShowsError serve (edit_device value) s h = h
step-ShowsError serve (edit_type value) s h = h
step-ShowsError serve (choose_limit n) s h = if_intro ShowsError (s.limit == n) _ _ h h
step-ShowsError serve refresh s h = h
step-ShowsError serve (replied i) s h = receive_at-ShowsError serve (at i s.requests) s h

-- Once the page shows an error, it shows one after any events, also after a refresh that succeeds.
run-ShowsError :
    (serve : ℕ → Answer) (es : List Event) (s : StatisticsState)
    → ShowsError s
    → ShowsError (run serve es s)
run-ShowsError serve [] s h = h
run-ShowsError serve (e ∷ es) s h =
    run-ShowsError serve es (step serve e s) (step-ShowsError serve e s h)

module _ (doubles : Doubles) (inherited_text : Text → Text)
    (local_time local_date_time : String → String) where
  -- What the page shows behind a reply to a request: the results that match the filters, twenty in
  -- the table at most, or the tests from before with an error message; never the spinner.
  abbrev pub Shows : Answer → StatisticsState → StatisticsState → Type 0
  Shows (found results) s t =
      ((view doubles inherited_text local_time local_date_time t).content
        ≡ some (content_of doubles inherited_text local_time local_date_time t))
      × ((content_of doubles inherited_text local_time local_date_time t).rows
          ≡ map (row local_date_time)
              (take 20 (filtered_tests s.device_filter s.test_type_filter results)))
      × (t.error ≡ s.error)
  Shows (failed e) s t =
      ((view doubles inherited_text local_time local_date_time t).content
        ≡ some (content_of doubles inherited_text local_time local_date_time t))
      × (t.tests ≡ s.tests)
      × ShowsError t

  receive-Shows : (a : Answer) (s : StatisticsState) → Shows a s (receive a s)
  unfolding view receive content_of
  receive-Shows (found results) s = (refl, refl, refl)
  receive-Shows (failed e) s = (refl, refl, error_text-shown "Failed to load statistics" e refl)

  -- The reply to any request ends the loading. If it brings results, the table shows the first twenty
  -- of them that match the filters of the moment and the error message stays as it was; if it brings
  -- an error, the tests stay and a message is shown.
  step-Shows :
      (serve : ℕ → Answer) (i n : ℕ) (s : StatisticsState)
      → at i s.requests ≡ some n
      → Shows (serve n) s (step serve (replied i) s)
  unfolding step
  step-Shows serve i n s h = rw h (receive-Shows (serve n) s)
