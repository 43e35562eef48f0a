-- ===== src/ManagerApi/Calls.antt =====
-- The calls of managerServer/frontend/src/services/api.ts that wrap one request: its method, its path,
-- its parameters and its JSON. `decimal` is what a template literal makes of a number.
use Prim.Native.String.{String, ◌++◌ as str_append}
use text.Mathlib.Text.{◌==◌ as str_eq}
use waddle_perf.Common.{
  ℕ, List, [], ◌∷◌, ◌++◌, Bool, true, if◌then◌else◌, Option, none, some, ◌≡◌, refl,
}
use waddle_perf.Types.{CreateUserRequest, UpdateUserRequest, CreateOrganizationRequest}
use waddle_perf.Http.{Reply, Request, Client, Run}
use waddle_perf.Http.Interceptor.{is_unauthorized}
use waddle_perf.ManagerApi.{to, send}
use waddle_perf.ManagerApi.Laws.{IsSignedOut, send-IsSignedOut}

pub data ApiCall : Type 0 where
  setup_mfa : ApiCall
  verify_mfa : (code : String) → ApiCall
  forgot_password : (email : String) → ApiCall
  reset_password : (token new_password : String) → ApiCall
  change_password : (current_password new_password : String) → ApiCall
  list_users : (page per_page : ℕ) → ApiCall
  get_user : (user_id : ℕ) → ApiCall
  create_user : CreateUserRequest → ApiCall
  update_user : (user_id : ℕ) → UpdateUserRequest → ApiCall
  change_user_password : (user_id : ℕ) (password : String) → ApiCall
  delete_user : (user_id : ℕ) → ApiCall
  list_organizations : ApiCall
  get_organization : (org_id : ℕ) → ApiCall
  create_organization : CreateOrganizationRequest → ApiCall
  get_recent_tests : (limit : ℕ) → ApiCall
  get_device_stats : (device_id : String) → ApiCall
  check_health : ApiCall

pub data Value : Type 0 where
  number : ℕ → Value
  string : String → Value
  flag : Bool → Value

abbrev pub Fields : Type 0
Fields = List (String × Value)

-- A field that is `undefined` is not in the JSON.
abbrev pub optional : String → Option ℕ → Fields
optional name none = []
optional name (some n) = (name, number n) ∷ []

abbrev pub create_fields : CreateUserRequest → Fields
create_fields f =
    ("username", string f.username)
    ∷ ("email", string f.email)
    ∷ ("password", string f.password)
    ∷ ("role", string f.role)
    ∷ optional "ou_id" f.ou_id

abbrev pub update_fields : UpdateUserRequest → Fields
update_fields f =
    ("email", string f.email) ∷ ("role", string f.role) ∷ optional "ou_id" f.ou_id
    ++ ("is_active", flag f.is_active) ∷ []

-- The JSON of a request; there is none where the call passes no data.
unfoldable pub payload : ApiCall → Fields
payload (verify_mfa code) = ("mfa_token", string code) ∷ []
payload (forgot_password email) = ("email", string email) ∷ []
payload (reset_password token p) = ("token", string token) ∷ ("new_password", string p) ∷ []
payload (change_password c p) = ("current_password", string c) ∷ ("new_password", string p) ∷ []
payload (create_user f) = create_fields f
payload (update_user i f) = update_fields f
payload (change_user_password i p) = ("password", string p) ∷ []
payload (create_organization f) =
    ("name", string f.name) ∷ ("description", string f.description) ∷ []
payload _ = []

-- `params`
unfoldable pub params : ApiCall → Fields
params (list_users page per_page) = ("page", number page) ∷ ("per_page", number per_page) ∷ []
params (get_recent_tests limit) = ("limit", number limit) ∷ []
params (get_device_stats device_id) = ("device_id", string device_id) ∷ []
params _ = []

unfoldable pub method_of : ApiCall → String
method_of (list_users page per_page) = "GET"
method_of (get_user i) = "GET"
method_of (update_user i f) = "PUT"
method_of (change_user_password i p) = "PUT"
method_of (delete_user i) = "DELETE"
method_of list_organizations = "GET"
method_of (get_organization i) = "GET"
method_of (get_recent_tests limit) = "GET"
method_of (get_device_stats device_id) = "GET"
method_of check_health = "GET"
method_of _ = "POST"

module _ (decimal : ℕ → String) where
  abbrev pub user_path : ℕ → String
  user_path i = str_append "/api/v1/users/" (decimal i)

  unfoldable pub path_of : ApiCall → String
  path_of setup_mfa = "/api/v1/auth/mfa/setup"
  path_of (verify_mfa code) = "/api/v1/auth/mfa/verify"
  path_of (forgot_password email) = "/api/v1/auth/forgot-password"
  path_of (reset_password token p) = "/api/v1/auth/reset-password"
  path_of (change_password c p) = "/api/v1/auth/change-password"
  path_of (list_users page per_page) = "/api/v1/users"
  path_of (get_user i) = user_path i
  path_of (create_user f) = "/api/v1/users"
  path_of (update_user i f) = user_path i
  path_of (change_user_password i p) = str_append (user_path i) "/password"
  path_of (delete_user i) = user_path i
  path_of list_organizations = "/api/v1/orgs"
  path_of (get_organization i) = str_append "/api/v1/orgs/" (decimal i)
  path_of (create_organization f) = "/api/v1/orgs"
  path_of (get_recent_tests limit) = "/api/v1/stats/recent"
  path_of (get_device_stats device_id) = "/api/v1/stats/by-device"
  path_of check_health = "/health"

  unfoldable pub request_of : ApiCall → Request
  request_of call = to (method_of call) (path_of call)

  unfoldable pub make : ApiCall → Client → List Reply → Run
  make call c replies = send (request_of call) c replies

  -- Whatever the call, one that fails with 401 leaves the user signed out.
  make-IsSignedOut :
      (call : ApiCall) (c : Client) (replies : List Reply)
      → is_unauthorized (make call c replies).1 ≡ true
      → IsSignedOut (make call c replies).0
  unfolding make
  make-IsSignedOut call = send-IsSignedOut (request_of call)

abbrev pub field : String → Fields → Option Value
field name [] = none
field name ((k, v) ∷ fs) = let rest = field name fs in if str_eq k name then some v else rest

abbrev pub number_of : Option ℕ → Option Value
number_of none = none
number_of (some n) = some (number n)

optional-ou_id :
    (f : UpdateUserRequest) (o : Option ℕ)
    → f.ou_id ≡ o
    → field "ou_id" (update_fields f) ≡ number_of f.ou_id
optional-ou_id f none e = rw e refl
optional-ou_id f (some n) e = rw e refl

-- The JSON of a change names the organization only if one is chosen: "None" sends nothing of it.
payload-ou_id :
    (i : ℕ) (f : UpdateUserRequest) → field "ou_id" (payload (update_user i f)) ≡ number_of f.ou_id
unfolding payload
payload-ou_id i f = optional-ou_id f f.ou_id refl
