-- ===== src/Organizations/Laws.antt =====
-- How the page managerServer/frontend/src/pages/Organizations.tsx creates an organization.
use text.Mathlib.Text.{◌==◌ as str_eq}
use waddle_perf.Common.{at, ℕ, [], ◌∷◌, ◌++◌, false, some, ◌≡◌, refl}
use waddle_perf.Types.{CreateOrganizationRequest}
use waddle_perf.Pages.{error_text-shown}
use waddle_perf.Organizations.{
  list_organizations, create_organization, Reply, ok, failed, OrganizationsState, empty_form,
  load_organizations, receive, replied, step,
}

-- What a reply to the creation of an organization leaves on the page.
abbrev pub Created : Reply → OrganizationsState → OrganizationsState → Type 0
Created (ok os) s t =
    (t.show_create_modal ≡ false)
    × (t.form_data ≡ empty_form)
    × (t.sent ≡ s.sent ++ list_organizations ∷ [])
    × (t.error ≡ s.error)
Created (failed e) s t =
    (t.show_create_modal ≡ s.show_create_modal)
    × (t.form_data ≡ s.form_data)
    × (t.sent ≡ s.sent)
    × (str_eq t.error "" ≡ false)

receive-Created :
    (f : CreateOrganizationRequest) (r : Reply) (s : OrganizationsState)
    → Created r s (receive (create_organization f) r s)
unfolding receive load_organizations
receive-Created f (ok os) s = (refl, refl, refl, refl)
receive-Created f (failed e) s =
    (refl, refl, refl, error_text-shown "Failed to create organization" e refl)

-- When an organization was created, the form is closed and empty, and the list is asked for again.
-- When the creation failed, the form stays with what was typed, and an error message is shown.
step-Created :
    (i : ℕ) (f : CreateOrganizationRequest) (r : Reply) (s : OrganizationsState)
    → at i s.sent ≡ some (create_organization f)
    → Created r s (step (replied i r) s)
unfolding step
step-Created i f r s h = rw h (receive-Created f r s)
