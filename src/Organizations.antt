-- ===== src/Organizations.antt =====
-- The page managerServer/frontend/src/pages/Organizations.tsx. A reply may come at any time and in
-- any order. `local_date` is the engine's `toLocaleDateString` of a date.
pub mod Laws
pub mod Session
use Prim.Native.String.{String}
use text.Mathlib.Text.{◌==◌ as str_eq}
use waddle_perf.Common.{
  at, ℕ, zero, suc, List, [], ◌∷◌, ◌++◌, map, Bool, true, false, if◌then◌else◌, Option, none, some,
}
use waddle_perf.Types.{OrganizationUnit, CreateOrganizationRequest}
use waddle_perf.Pages.{error_text, non_empty}

pub data Call : Type 0 where
  list_organizations : Call
  create_organization : CreateOrganizationRequest → Call

-- `organizations` is what a reply to the listing holds.
pub data Reply : Type 0 where
  ok : (organizations : List OrganizationUnit) → Reply
  failed : (error : Option String) → Reply

-- `sent` are the calls made so far, the first one first.
pub record OrganizationsState : Type 0 where
  pub organizations : List OrganizationUnit
  pub loading : Bool
  pub error : String
  pub show_create_modal : Bool
  pub form_data : CreateOrganizationRequest
  pub sent : List Call

abbrev pub empty_form : CreateOrganizationRequest
empty_form = record { name = ""; description = "" }

-- `loadOrganizations` up to its `await`.
unfoldable pub load_organizations : OrganizationsState → OrganizationsState
load_organizations s = record s { loading = true; sent = s.sent ++ list_organizations ∷ [] }

-- Behind the first render and its effect.
unfoldable pub initial : OrganizationsState
unfolding load_organizations
initial = load_organizations (record {
  organizations = [];
  loading = true;
  error = "";
  show_create_modal = false;
  form_data = empty_form;
  sent = [];
})

-- What the handlers do behind their `await`.
unfoldable pub receive : Call → Reply → OrganizationsState → OrganizationsState
unfolding load_organizations
receive list_organizations (ok os) s = record s { organizations = os; loading = false }
receive list_organizations (failed e) s = record s {
  error = error_text "Failed to load organizations" e;
  loading = false;
}
receive (create_organization f) (ok os) s =
    load_organizations (record s { show_create_modal = false; form_data = empty_form })
receive (create_organization f) (failed e) s = record s {
  error = error_text "Failed to create organization" e;
}

unfoldable pub handle_create : OrganizationsState → OrganizationsState
handle_create s = record s { sent = s.sent ++ create_organization s.form_data ∷ [] }

-- `replied i` is a reply to the call in place `i`. The form is there while the modal is shown; the
-- browser's check that the name is not empty is left out.
pub data Event : Type 0 where
  open_create close_create submit_create : Event
  edit_name edit_description : String → Event
  replied : (place : ℕ) → Reply → Event

abbrev pub receive_at : Option Call → Reply → OrganizationsState → OrganizationsState
receive_at none r s = s
receive_at (some c) r s = receive c r s

-- `setFormData({ ...formData, … })`
abbrev pub change :
    (CreateOrganizationRequest → CreateOrganizationRequest)
    → OrganizationsState
    → OrganizationsState
change f s = if s.show_create_modal then record s { form_data = f s.form_data } else s

unfoldable pub step : Event → OrganizationsState → OrganizationsState
step open_create s = record s { show_create_modal = true }
step close_create s = record s { show_create_modal = false }
step submit_create s = if s.show_create_modal then handle_create s else s
step (edit_name v) s = change (λ f. record f { name = v }) s
step (edit_description v) s = change (λ f. record f { description = v }) s
step (replied i r) s = receive_at (at i s.sent) r s

abbrev pub run : List Event → OrganizationsState → OrganizationsState
run [] s = s
run (e ∷ es) s = run es (step e s)

-- No description is 'No description'.
pub record Card : Type 0 where
  pub name : String
  pub description : String
  pub id : ℕ
  pub created : String

abbrev pub description_of : Option String → String
description_of none = "No description"
description_of (some d) = if str_eq d "" then "No description" else d

abbrev pub card : (String → String) → OrganizationUnit → Card
card local_date o = record {
  name = o.name;
  description = description_of o.description;
  id = o.id;
  created = local_date o.created_at;
}

-- The cards are missing while the page is loading; an empty list of them is shown as the text that
-- says so.
pub record OrganizationsView : Type 0 where
  pub error : Option String
  pub cards : Option (List Card)
  pub create_modal : Option CreateOrganizationRequest

unfoldable pub view : (String → String) → OrganizationsState → OrganizationsView
view local_date s = record {
  error = non_empty (some s.error);
  cards = if s.loading then none else some (map (card local_date) s.organizations);
  create_modal = if s.show_create_modal then some s.form_data else none;
}
