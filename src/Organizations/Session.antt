-- ===== src/Organizations/Session.antt =====
-- The creation of an organization on managerServer/frontend/src/pages/Organizations.tsx, from the
-- click on its button to the new list.
use Prim.Native.String.{String}
use text.Mathlib.Text.{◌==◌ as str_eq}
use waddle_perf.Common.{
  at, at-end, List, [], ◌∷◌, ◌++◌, map, length, length-append, ◌+◌, true, false, Option, ◌≡◌, refl,
  ap, ◌∙◌, arith,
}
use waddle_perf.Types.{OrganizationUnit, CreateOrganizationRequest}
use waddle_perf.Pages.{error_text, error_text-shown}
use waddle_perf.Organizations.{
  list_organizations, create_organization, ok, failed, OrganizationsState, empty_form,
  load_organizations, receive, receive_at, handle_create, Event, open_create, submit_create,
  edit_name, edit_description, replied, step, run,
}

-- What is typed, and the form with it.
pub data Typing : Type 0 where
  name description : String → Typing

abbrev pub typed : Typing → CreateOrganizationRequest → CreateOrganizationRequest
typed (name v) f = record f { name = v }
typed (description v) f = record f { description = v }

abbrev pub typed_all : List Typing → CreateOrganizationRequest → CreateOrganizationRequest
typed_all [] f = f
typed_all (t ∷ ts) f = typed_all ts (typed t f)

abbrev pub event_of : Typing → Event
event_of (name v) = edit_name v
event_of (description v) = edit_description v

abbrev pub submission : List Typing → List Event
submission ts = open_create ∷ (map event_of ts ++ submit_create ∷ [])

abbrev editing : CreateOrganizationRequest → OrganizationsState → OrganizationsState
editing f s = record s { show_create_modal = true; form_data = f }

run-editing :
    (ts : List Typing) (f : CreateOrganizationRequest) (s : OrganizationsState)
    → run (map event_of ts) (editing f s) ≡ editing (typed_all ts f) s
unfolding step
run-editing [] f s = refl
run-editing (name v ∷ ts) f s = run-editing ts (record f { name = v }) s
run-editing (description v ∷ ts) f s = run-editing ts (record f { description = v }) s

run-append : (ds es : List Event) (s : OrganizationsState) → run (ds ++ es) s ≡ run es (run ds s)
run-append [] es s = refl
run-append (d ∷ ds) es s = run-append ds es (step d s)

-- The form with what was typed has been submitted.
abbrev pub submitted : List Typing → OrganizationsState → OrganizationsState
submitted ts s =
    let f = typed_all ts s.form_data in
    record s {
      show_create_modal = true;
      form_data = f;
      sent = s.sent ++ create_organization f ∷ [];
    }

run-submission :
    (ts : List Typing) (s : OrganizationsState) → run (submission ts) s ≡ submitted ts s
unfolding step handle_create
run-submission ts s =
    run-append (map event_of ts) (submit_create ∷ []) (editing s.form_data s)
    ∙ ap (step submit_create) (run-editing ts s.form_data s)

-- The form is closed and empty, and the list is that of the reply.
abbrev pub created : List Typing → List OrganizationUnit → OrganizationsState → OrganizationsState
created ts os s = record s {
  organizations = os;
  loading = false;
  show_create_modal = false;
  form_data = empty_form;
  sent = (s.sent ++ create_organization (typed_all ts s.form_data) ∷ []) ++ list_organizations ∷ [];
}

run-created :
    (ts : List Typing) (answer os : List OrganizationUnit) (s : OrganizationsState)
    → run
        (replied (length s.sent) (ok answer) ∷ replied (length s.sent + 1) (ok os) ∷ [])
        (submitted ts s)
      ≡ created ts os s
unfolding step receive load_organizations
run-created ts answer os s =
    let c = create_organization (typed_all ts s.form_data) in
    let asked = record (submitted ts s) {
      loading = true;
      show_create_modal = false;
      form_data = empty_form;
      sent = (s.sent ++ c ∷ []) ++ list_organizations ∷ [];
    } in
    let place : length s.sent + 1 ≡ length (s.sent ++ c ∷ []) =
      omega (arith, length-append s.sent (c ∷ [])) in
    ap (λ o. step (replied (length s.sent + 1) (ok os)) (receive_at o (ok answer) (submitted ts s)))
      (at-end s.sent c)
    ∙ ap (λ o. receive_at o (ok os) asked)
        (ap (λ n. at n asked.sent) place ∙ at-end (s.sent ++ c ∷ []) list_organizations)

-- The form stays as it was typed, with the message of an error.
abbrev pub refused : List Typing → Option String → OrganizationsState → OrganizationsState
refused ts e s = record (submitted ts s) { error = error_text "Failed to create organization" e }

run-refused :
    (ts : List Typing) (e : Option String) (s : OrganizationsState)
    → run (replied (length s.sent) (failed e) ∷ []) (submitted ts s) ≡ refused ts e s
unfolding step receive
run-refused ts e s =
    ap (λ o. receive_at o (failed e) (submitted ts s))
      (at-end s.sent (create_organization (typed_all ts s.form_data)))

-- Opening the form, typing and submitting it asks the server for an organization with what was typed.
-- When that and the new list are answered, the page shows that list, and the form is closed and empty;
-- when it fails, the page goes on to show the form as it was typed and the list it had, with a message
-- that is not empty. Nothing else on the page changes.
pub run-submission_ends :
    (ts : List Typing) (answer os : List OrganizationUnit) (e : Option String)
    → (s : OrganizationsState)
    → (run
          (submission ts
            ++ replied (length s.sent) (ok answer) ∷ replied (length s.sent + 1) (ok os) ∷ [])
          s
        ≡ created ts os s)
      × (run (submission ts ++ replied (length s.sent) (failed e) ∷ []) s ≡ refused ts e s)
      × (str_eq (refused ts e s).error "" ≡ false)
run-submission_ends ts answer os e s =
    let replies = replied (length s.sent) (ok answer) ∷ replied (length s.sent + 1) (ok os) ∷ [] in
    let failure = replied (length s.sent) (failed e) ∷ [] in
    (
      run-append (submission ts) replies s
          ∙ ap (run replies) (run-submission ts s)
          ∙ run-created ts answer os s,
      run-append (submission ts) failure s
          ∙ ap (run failure) (run-submission ts s)
          ∙ run-refused ts e s,
      error_text-shown "Failed to create organization" e refl,
    )
