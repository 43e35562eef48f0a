-- ===== src/Users.antt =====
-- The page managerServer/frontend/src/pages/Users.tsx: its tables, forms and pages, and the calls of
-- the API client that it makes. A reply may come at any time and in any order; what a successful one
-- holds is `Body`, of which each call reads its own fields.
pub mod Screen
pub mod Laws
pub mod Paging
pub mod Newest
use Prim.Native.String.{String}
use text.Mathlib.Text.{◌==◌ as str_eq}
use waddle_perf.Common.{
  ℕ, zero, suc, ◌+◌, ◌-◌, List, [], ◌∷◌, ◌++◌, Bool, true, false, not, ◌&&◌, ◌==◌, ltb,
  if◌then◌else◌, Option, none, some, length,
}
use waddle_perf.Types.{User, OrganizationUnit, CreateUserRequest, UpdateUserRequest}
use waddle_perf.Pages.{error_text, non_empty}

-- `list_users` asks for 50 users per page.
pub data Call : Type 0 where
  list_users : (page : ℕ) → Call
  list_organizations : Call
  create_user : CreateUserRequest → Call
  update_user : (user_id : ℕ) → UpdateUserRequest → Call
  delete_user : (user_id : ℕ) → Call

-- A call and the page of the render in which it was made.
pub record Sent : Type 0 where
  pub call : Call
  pub page : ℕ

pub record Body : Type 0 where
  pub users : List User
  pub total : ℕ
  pub organizations : List OrganizationUnit

pub data Reply : Type 0 where
  ok : Body → Reply
  failed : (error : Option String) → Reply

-- `sent` are the calls made so far, the first one first; `newest` is the place of the call for the
-- users that the effect made last.
pub record UsersState : Type 0 where
  pub users : List User
  pub organizations : List OrganizationUnit
  pub loading : Bool
  pub error : String
  pub show_create_modal : Bool
  pub show_edit_modal : Bool
  pub current_user : Option User
  pub page : ℕ
  pub total_users : ℕ
  pub form_data : CreateUserRequest
  pub edit_form_data : UpdateUserRequest
  pub sent : List Sent
  pub newest : ℕ

abbrev pub empty_form : CreateUserRequest
empty_form = record { username = ""; email = ""; password = ""; role = "user"; ou_id = none }

abbrev pub initial : UsersState
initial = record {
  users = [];
  organizations = [];
  loading = true;
  error = "";
  show_create_modal = false;
  show_edit_modal = false;
  current_user = none;
  page = 1;
  total_users = 0;
  form_data = empty_form;
  edit_form_data = record { email = ""; role = "user"; ou_id = none; is_active = true };
  sent = [];
  newest = 0;
}

abbrev pub make_call : Call → UsersState → UsersState
make_call c s = record s { sent = s.sent ++ record { call = c; page = s.page } ∷ [] }

-- `loadUsers` up to its `await`, of the render with the page `p`.
abbrev pub load_users : ℕ → UsersState → UsersState
load_users p s = record s {
  loading = true;
  sent = s.sent ++ record { call = list_users p; page = p } ∷ [];
}

-- The effect, behind the first render and each change of the page.
unfoldable pub effect : UsersState → UsersState
effect s = make_call list_organizations (load_users s.page (record s { newest = length s.sent }))

abbrev pub show_error : String → Option String → UsersState → UsersState
show_error fallback e s = record s { error = error_text fallback e }

abbrev pub reset_form : UsersState → UsersState
reset_form s = record s { form_data = empty_form }

-- What the handlers do behind their `await`, with the page of the call's render.
unfoldable pub receive : Call → ℕ → Reply → UsersState → UsersState
receive (list_users n) p (ok b) s = record s {
  users = b.users;
  total_users = b.total;
  loading = false;
}
receive (list_users n) p (failed e) s = record (show_error "Failed to load users" e s) {
  loading = false;
}
receive list_organizations p (ok b) s = record s { organizations = b.organizations }
receive list_organizations p (failed e) s = s
receive (create_user f) p (ok b) s =
    load_users p (reset_form (record s { show_create_modal = false }))
receive (create_user f) p (failed e) s = show_error "Failed to create user" e s
receive (update_user i f) p (ok b) s =
    load_users p (record s { show_edit_modal = false; current_user = none })
receive (update_user i f) p (failed e) s = show_error "Failed to update user" e s
receive (delete_user i) p (ok b) s = load_users p s
receive (delete_user i) p (failed e) s = show_error "Failed to delete user" e s

-- `user.ou_id || undefined`
abbrev pub or_undefined : Option ℕ → Option ℕ
or_undefined none = none
or_undefined (some n) = if n == 0 then none else some n

abbrev pub form_of : User → UpdateUserRequest
form_of u = record {
  email = u.email;
  role = u.role;
  ou_id = or_undefined u.ou_id;
  is_active = u.is_active;
}

unfoldable pub open_edit_modal : User → UsersState → UsersState
open_edit_modal u s = record s {
  current_user = some u;
  edit_form_data = form_of u;
  show_edit_modal = true;
}

unfoldable pub handle_create : UsersState → UsersState
handle_create s = make_call (create_user s.form_data) s

abbrev pub update_call : Option User → UsersState → UsersState
update_call none s = s
update_call (some u) s = make_call (update_user u.id s.edit_form_data) s

unfoldable pub handle_edit : UsersState → UsersState
handle_edit s = update_call s.current_user s

-- `confirmed` is what the browser's `confirm` returns.
unfoldable pub handle_delete : Bool → ℕ → UsersState → UsersState
handle_delete confirmed user_id s = if not confirmed then s else make_call (delete_user user_id) s
