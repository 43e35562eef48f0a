-- ===== src/Users/Screen.antt =====
-- The events of the page managerServer/frontend/src/pages/Users.tsx and what it renders.
use Prim.Native.String.{String}
use text.Mathlib.Text.{◌==◌ as str_eq}
use waddle_perf.Common.{
  at, ℕ, ◌+◌, ◌-◌, ◌/◌, List, [], ◌∷◌, map, length, Bool, true, false, ◌&&◌, ◌||◌, ◌==◌, ltb,
  if◌then◌else◌, Option, none, some,
}
use waddle_perf.Pages.{non_empty}
use waddle_perf.Types.{User, OrganizationUnit, CreateUserRequest, UpdateUserRequest}
use waddle_perf.Users.{
  Sent, Reply, UsersState, effect, receive, open_edit_modal, handle_create, handle_edit,
  handle_delete,
}

-- What is typed or chosen in a form; `none` is the organization "None".
pub data Edit : Type 0 where
  username email password role : String → Edit
  ou_id : Option ℕ → Edit
  is_active : Bool → Edit

abbrev pub edit_create : Edit → CreateUserRequest → CreateUserRequest
edit_create (username v) f = record f { username = v }
edit_create (email v) f = record f { email = v }
edit_create (password v) f = record f { password = v }
edit_create (role v) f = record f { role = v }
edit_create (ou_id v) f = record f { ou_id = v }
edit_create (is_active v) f = f

abbrev pub edit_update : Edit → UpdateUserRequest → UpdateUserRequest
edit_update (email v) f = record f { email = v }
edit_update (role v) f = record f { role = v }
edit_update (ou_id v) f = record f { ou_id = v }
edit_update (is_active v) f = record f { is_active = v }
edit_update (username v) f = f
edit_update (password v) f = f

-- A button of a row carries the row's place; `replied i` is a reply to the call in place `i`.
pub data Event : Type 0 where
  open_create close_create submit_create close_edit submit_edit previous next : Event
  change_create change_edit : Edit → Event
  click_edit : (row : ℕ) → Event
  click_delete : (confirmed : Bool) → (row : ℕ) → Event
  replied : (place : ℕ) → Reply → Event

-- A row and the buttons "Previous" and "Next" are there when the page is not loading.
abbrev pub row_user : ℕ → UsersState → Option User
row_user i s = if s.loading then none else at i s.users

abbrev pub edit_row : Option User → UsersState → UsersState
edit_row none s = s
edit_row (some u) s = open_edit_modal u s

abbrev pub delete_row : Bool → Option User → UsersState → UsersState
delete_row confirmed none s = s
delete_row confirmed (some u) s = handle_delete confirmed u.id s

abbrev pub is_user : Option User → Bool
is_user none = false
is_user (some u) = true

abbrev pub edit_shown : UsersState → Bool
edit_shown s = s.show_edit_modal && is_user s.current_user

-- `setPage((p) => Math.max(1, p - 1))`, disabled on page 1.
unfoldable pub previous_page : UsersState → UsersState
previous_page s = if s.loading || s.page == 1 then s else effect (record s { page = s.page - 1 })

-- Disabled below 50 users.
unfoldable pub next_disabled : UsersState → Bool
next_disabled s = s.loading || ltb (length s.users) 50

unfoldable pub next_page : UsersState → UsersState
next_page s = if next_disabled s then s else effect (record s { page = s.page + 1 })

abbrev pub receive_sent : Option Sent → Reply → UsersState → UsersState
receive_sent none r s = s
receive_sent (some x) r s = receive x.call x.page r s

unfoldable pub step : Event → UsersState → UsersState
step open_create s = record s { show_create_modal = true }
step close_create s = record s { show_create_modal = false }
step submit_create s = if s.show_create_modal then handle_create s else s
step close_edit s = record s { show_edit_modal = false }
step submit_edit s = if edit_shown s then handle_edit s else s
step previous s = previous_page s
step next s = next_page s
step (change_create e) s =
    if s.show_create_modal then record s { form_data = edit_create e s.form_data } else s
step (change_edit e) s =
    if edit_shown s then record s { edit_form_data = edit_update e s.edit_form_data } else s
step (click_edit i) s = edit_row (row_user i s) s
step (click_delete confirmed i) s = delete_row confirmed (row_user i s) s
step (replied i r) s = receive_sent (at i s.sent) r s

abbrev pub run : List Event → UsersState → UsersState
run [] s = s
run (e ∷ es) s = run es (step e s)

-- The column "Organization": 'N/A', a name, or the number of a unit that is not known by name.
pub data Organization : Type 0 where
  not_available : Organization
  named : String → Organization
  numbered : ℕ → Organization

-- `organizations.find((o) => o.id === n)?.name || n`
abbrev pub name_or : ℕ → String → Organization
name_or n name = if str_eq name "" then numbered n else named name

abbrev pub find_name : ℕ → List OrganizationUnit → Organization
find_name n [] = numbered n
find_name n (o ∷ os) = let rest = find_name n os in if o.id == n then name_or n o.name else rest

unfoldable pub organization_of : List OrganizationUnit → Option ℕ → Organization
organization_of os none = not_available
organization_of os (some n) = if n == 0 then not_available else find_name n os

pub record Row : Type 0 where
  pub id : ℕ
  pub username : String
  pub email : String
  pub role : String
  pub organization : Organization
  pub mfa_enabled : Bool
  pub is_active : Bool

abbrev pub row : List OrganizationUnit → User → Row
row os u = record {
  id = u.id;
  username = u.username;
  email = u.email;
  role = u.role;
  organization = organization_of os u.ou_id;
  mfa_enabled = u.mfa_enabled;
  is_active = u.is_active;
}

-- "Page `page` of `pages`", and whether the two buttons are disabled.
pub record Table : Type 0 where
  pub rows : List Row
  pub page : ℕ
  pub pages : ℕ
  pub previous_disabled : Bool
  pub next_disabled : Bool

-- The table is missing while the page is loading. `edit_modal` is the name in its title and the form;
-- the options are those of both forms, below "None" for the organizations.
pub record UsersView : Type 0 where
  pub error : Option String
  pub table : Option Table
  pub create_modal : Option CreateUserRequest
  pub edit_modal : Option (String × UpdateUserRequest)
  pub role_options : List String
  pub choices : List OrganizationUnit

abbrev pub roles : List String
roles = "global_admin" ∷ "global_reporter" ∷ "ou_admin" ∷ "ou_reporter" ∷ "user" ∷ []

abbrev pub table : UsersState → Table
table s = record {
  rows = map (row s.organizations) s.users;
  page = s.page;
  pages = (s.total_users + 49) / 50;
  previous_disabled = s.page == 1;
  next_disabled = ltb (length s.users) 50;
}

abbrev pub titled : Option User → UpdateUserRequest → Option (String × UpdateUserRequest)
titled none f = none
titled (some u) f = some (u.username, f)

unfoldable pub view : UsersState → UsersView
view s = record {
  error = non_empty (some s.error);
  table = if s.loading then none else some (table s);
  create_modal = if s.show_create_modal then some s.form_data else none;
  edit_modal = if s.show_edit_modal then titled s.current_user s.edit_form_data else none;
  role_options = roles;
  choices = s.organizations;
}
