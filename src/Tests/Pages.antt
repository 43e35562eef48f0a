-- ===== src/Tests/Pages.antt =====
-- Runs of Devices.tsx and Organizations.tsx of managerServer/frontend/src/pages at fixed inputs.
use text.Mathlib.Text.{◌==◌ as str_eq}
use waddle_perf.Types.{OrganizationUnit}
use waddle_perf.Organizations
use waddle_perf.Organizations.Session.{Typing, submission, created, refused, run-submission_ends}
use waddle_perf.Common.{List, [], ◌∷◌, ◌++◌, ◌≡◌, none, false}
use waddle_perf.Devices.{
  Query, Answer, found, Event, edit_search, edit_status, replied, query_of, receive, step,
}
use waddle_perf.Devices.Laws.{after, run-newest}

abbrev answer_by_page : Query → Answer
answer_by_page q = found [] q.page

-- The reply to the first request comes behind the second request.
abbrev late : List Event
late = edit_search "ada" ∷ replied 0 ∷ edit_status "online" ∷ []

run-newest_example :
    step answer_by_page (replied (after answer_by_page late).newest) (after answer_by_page late)
    ≡ receive (answer_by_page (query_of (after answer_by_page late))) (after answer_by_page late)
run-newest_example = run-newest answer_by_page late

abbrev lab : OrganizationUnit
lab = record { id = 3; name = "Lab"; description = none; created_at = "2026-01-01" }

abbrev lab_typed : List Typing
lab_typed = Typing.name "La" ∷ Typing.name "Lab" ∷ []

run-submission_ends_example :
    (Organizations.run
        (submission lab_typed
          ++ Organizations.Event.replied 1 (Organizations.Reply.ok [])
            ∷ Organizations.Event.replied 2 (Organizations.Reply.ok (lab ∷ []))
            ∷ [])
        Organizations.initial
      ≡ created lab_typed (lab ∷ []) Organizations.initial)
    × (Organizations.run
          (submission lab_typed
            ++ Organizations.Event.replied 1 (Organizations.Reply.failed none) ∷ [])
          Organizations.initial
        ≡ refused lab_typed none Organizations.initial)
    × (str_eq (refused lab_typed none Organizations.initial).error "" ≡ false)
unfolding Organizations.initial Organizations.load_organizations
run-submission_ends_example = run-submission_ends lab_typed [] (lab ∷ []) none Organizations.initial
