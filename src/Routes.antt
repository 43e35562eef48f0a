-- ===== src/Routes.antt =====
-- Which page the manager shows: managerServer/frontend/src/App.tsx with
-- managerServer/frontend/src/components/ProtectedRoute.tsx and the links of
-- managerServer/frontend/src/components/Navbar.tsx.
pub mod Laws
pub mod Bar
use Prim.Native.String.{String}
use text.Mathlib.Text.{◌==◌ as str_eq}
use waddle_perf.Common.{
  ℕ, zero, suc, List, [], ◌∷◌, ◌++◌, Bool, true, false, not, ◌&&◌, ◌||◌, Option, none, some,
  if◌then◌else◌,
}
use waddle_perf.Types.{User}
use waddle_perf.Http.{Client}
use waddle_perf.Auth.{AuthState, is_authenticated}

pub data Page : Type 0 where
  login dashboard users organizations statistics profile devices : Page

pub data Shown : Type 0 where
  loading unauthorized : Shown
  navigate : String → Shown
  page : Page → Shown

-- `user?.role === role`
abbrev pub role_is : Option User → String → Bool
role_is none role = false
role_is (some u) role = str_eq u.role role

-- `requiredRole && user?.role !== requiredRole && user?.role !== 'global_admin'`
abbrev pub is_refused : Option String → Option User → Bool
is_refused none user = false
is_refused (some role) user = not (role_is user role) && not (role_is user "global_admin")

unfoldable pub protected_route : AuthState → Option String → Shown → Shown
protected_route s required_role children =
    if s.is_loading
    then loading
    else if not (is_authenticated s)
    then navigate "/login"
    else if is_refused required_role s.user
    then unauthorized
    else children

-- The routes; the last one is "*".
unfoldable pub route : AuthState → String → Shown
unfolding protected_route
route s path =
    if str_eq path "/login"
    then page login
    else if str_eq path "/"
    then protected_route s none (navigate "/dashboard")
    else if str_eq path "/dashboard"
    then protected_route s none (page dashboard)
    else if str_eq path "/users"
    then protected_route s none (page users)
    else if str_eq path "/organizations"
    then protected_route s none (page organizations)
    else if str_eq path "/statistics"
    then protected_route s none (page statistics)
    else if str_eq path "/profile"
    then protected_route s none (page profile)
    else if str_eq path "/devices"
    then protected_route s none (page devices)
    else navigate "/dashboard"

-- The browser follows `navigate`, at most `fuel` times.
unfoldable pub follow : ℕ → AuthState → String → Shown
follow zero s path = route s path
follow (suc fuel) s path = elim (route s path) [
  | navigate target ↦ follow fuel s target
  | loading ↦ loading
  | unauthorized ↦ unauthorized
  | page p ↦ page p
]

-- The path at which the browser is then: `Navigate` with `replace` changes it.
abbrev pub landing : ℕ → AuthState → String → String
landing zero s path = path
landing (suc fuel) s path = elim (route s path) [
  | navigate target ↦ landing fuel s target
  | loading ↦ path
  | unauthorized ↦ path
  | page p ↦ path
]

-- The browser once the router has rendered its path.
abbrev pub rendered : AuthState → Client → Client
rendered s c = record c { location = landing 2 s c.location }

abbrev pub is_admin : Option User → Bool
is_admin user = role_is user "global_admin" || role_is user "ou_admin"

-- The targets of the links of the navigation bar, its title first.
unfoldable pub links : AuthState → List String
links s =
    "/"
    ∷ "/dashboard"
    ∷ "/devices"
    ∷ "/statistics"
    ∷ ((if is_admin s.user then "/users" ∷ "/organizations" ∷ [] else []) ++ "/profile" ∷ [])
