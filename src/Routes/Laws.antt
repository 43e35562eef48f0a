-- ===== src/Routes/Laws.antt =====
-- Who sees which page of the manager.
use Prim.Native.String.{String}
use waddle_perf.Common.{
  ℕ, zero, suc, refl, Bool, sym, ◌≡◌, ◌⊎◌, ◌↔◌, true, false, arith, Option, none, some,
}
use waddle_perf.Auth.{AuthState, is_authenticated}
use waddle_perf.Routes.{
  Page, loading, unauthorized, login, dashboard, users, organizations, Shown, navigate, page,
  role_is, protected_route, route, follow, landing,
}

-- The user has the required role, or is a global admin, or no role is required.
abbrev pub HasRole : Option String → AuthState → Type 0
HasRole none s = Unit
HasRole (some role) s = (role_is s.user role ≡ true) ⊎ (role_is s.user "global_admin" ≡ true)

-- `ProtectedRoute` shows a page exactly to a signed-in user, once the session is restored, who has the
-- required role, or is a global admin, or where no role is required.
protected_route_iff :
    (s : AuthState) (required : Option String) (p : Page)
    → (protected_route s required (page p) ≡ page p)
      ↔ ((s.is_loading ≡ false) × (is_authenticated s ≡ true) × HasRole required s)
unfolding protected_route
protected_route_iff s none p = (λ h. (ground arith, ground arith, tt), λ (l, a, h). rw (l, a))
protected_route_iff s (some role) p =
    (λ h. (ground arith, ground arith, ground arith), λ (l, a, h). ground arith)

protected_route-signed_out :
    (s : AuthState) (required : Option String) (x : Shown)
    → s.is_loading ≡ false
    → is_authenticated s ≡ false
    → protected_route s required x ≡ navigate "/login"
unfolding protected_route
protected_route-signed_out s required x l a = rw (l, a)

-- Once the session is restored, every path leads somebody who is not signed in to the login page,
-- within two redirections.
pub follow-login :
    (s : AuthState) (path : String)
    → s.is_loading ≡ false
    → is_authenticated s ≡ false
    → follow 2 s path ≡ page login
unfolding follow route
follow-login s path l a =
    let out = λ (x : Shown). protected_route-signed_out s none x l a in
    ground (arith, out (navigate "/dashboard"), out (page dashboard), out (page users))

-- Once the session is restored, the pages that the navigation bar offers to admins alone are shown
-- to every signed-in user.
route-admin_pages :
    (s : AuthState)
    → s.is_loading ≡ false
    → is_authenticated s ≡ true
    → (route s "/users" ≡ page users) × (route s "/organizations" ≡ page organizations)
unfolding route
route-admin_pages s l a = ground arith

-- Where the redirections leave the browser, the page is shown to which they lead.
follow-landing :
    (n : ℕ) (s : AuthState) (path : String) → follow n s path ≡ route s (landing n s path)
unfolding follow
follow-landing zero s path = refl
follow-landing (suc n) s path = from (follow-landing n s) (route s path) refl
  where
    from :
        ((p : String) → follow n s p ≡ route s (landing n s p))
        → (x : Shown) → route s path ≡ x
        → (elim x as (λ y. Shown) [
          | navigate target ↦ follow n s target
          | loading ↦ loading
          | unauthorized ↦ unauthorized
          | page p ↦ page p
        ])
          ≡ route s (elim x as (λ y. String) [
            | navigate target ↦ landing n s target
            | loading ↦ path
            | unauthorized ↦ path
            | page p ↦ path
          ])
    from h (navigate target) e = h target
    from h loading e = sym e
    from h unauthorized e = sym e
    from h (page p) e = sym e

abbrev is_redirection : Shown → Bool
is_redirection (navigate target) = true
is_redirection _ = false

-- Two redirections are enough from every path.
follow-settled : (s : AuthState) (path : String) → is_redirection (follow 2 s path) ≡ false
unfolding follow route protected_route
follow-settled s path = ground arith
