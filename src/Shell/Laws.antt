-- ===== src/Shell/Laws.antt =====
-- Who sees the tests in webClient/frontend/src/App.tsx.
use waddle_perf.Common.{
  List, false, not, ◌&&◌, ◌≡◌, refl, inl, inr, Bool-cases, arith, if◌then◌else◌,
}
use waddle_perf.Http.{Reply, Client, Outcome, resolved, rejected, pending}
use waddle_perf.WebApi
use waddle_perf.Shell.{
  ShellState, is_true, after_check, check_auth, must_log_in, Shown, loading_screen, login_page,
  test_runner, route, follow, initial,
}

-- Both paths end at the login page, or both at the tests.
abbrev pub Leads : ShellState → Shown → Type 0
Leads s shown = (follow s "/" ≡ shown) × (follow s "/login" ≡ shown)

-- What a reply to the first request leads to.
abbrev pub expected : Outcome → ShellState → Shown
expected pending s = loading_screen
expected (rejected f) s = login_page
expected (resolved body) s =
    if is_true body.auth_enabled && not (is_true body.authenticated)
    then login_page
    else test_runner (after_check (resolved body) s).user (is_true body.auth_enabled)

follow-Leads :
    (s : ShellState)
    → s.loading ≡ false
    → Leads s (if must_log_in s then login_page else test_runner s.user s.auth_enabled)
unfolding follow route
follow-Leads s l = elim (Bool-cases (must_log_in s)) [
  | inl e ↦ (ground (arith, l, e), ground (arith, l, e))
  | inr e ↦ (ground (arith, l, e), ground (arith, l, e))
]

-- From the first render: the page waits as long as the request for the state of the session does;
-- when it fails, both paths lead to the login page; when it is answered, they lead to the login page
-- if authentication is enabled and the user is not signed in, and to the tests otherwise, also where
-- the answer does not say whether authentication is enabled.
pub check_auth-Leads :
    (c : Client) (replies : List Reply)
    → Leads
        (check_auth c replies initial).0
        (expected (WebApi.check_auth_status c replies).1 initial)
unfolding check_auth after_check follow route
check_auth-Leads c replies = by_outcome (WebApi.check_auth_status c replies).1
  where
    by_outcome : (o : Outcome) → Leads (after_check o initial) (expected o initial)
    by_outcome pending = (refl, refl)
    by_outcome (rejected f) = (refl, refl)
    by_outcome (resolved body) = follow-Leads (after_check (resolved body) initial) refl
