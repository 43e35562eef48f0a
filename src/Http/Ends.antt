-- ===== src/Http/Ends.antt =====
-- How a call ends that the shared response interceptor gives up.
use waddle_perf.Common.{◌≡◌, refl, List, [], ◌∷◌, Bool, true, false}
use waddle_perf.Http.{
  Body, Reply, Request, Client, Outcome, resolved, rejected, pending, answer, Run, log, authorize,
}
use waddle_perf.Http.Interceptor.{
  refresh_request, store_access, with_token, is_unauthorized, has_refresh, refreshed, respond,
  respond_last, exchange,
}

module _ (give_up : Client → Client) (P : Client → Type 0)
    (gives_up : (c : Client) → P (give_up c)) where
  abbrev EndsIn : Run → Type 0
  EndsIn x = is_unauthorized x.1 ≡ true → P x.0

  refreshed-EndsIn :
      (again : Body → Run) (c : Client) (o : Outcome) (rest : List Reply) (b : Outcome)
      → ((body : Body) → EndsIn (again body))
      → EndsIn (refreshed give_up again c o rest b)
  unfolding refreshed
  refreshed-EndsIn again c o rest (resolved body) ih = ih body
  refreshed-EndsIn again c o rest (rejected f) ih = λ h. gives_up c
  refreshed-EndsIn again c o rest pending ih = λ h. cc

  -- A call that fails with 401 has given up the session.
  pub exchange-EndsIn :
      (r : Request) (c : Client) (replies : List Reply)
      → is_unauthorized (exchange give_up r c replies).1 ≡ true
      → P (exchange give_up r c replies).0
  unfolding exchange
  exchange-EndsIn r c [] h = cc
  exchange-EndsIn r c (a ∷ []) h = last (is_unauthorized (answer a)) (has_refresh c) refl h
    where
      last :
          (u t : Bool)
          → is_unauthorized (answer a) ≡ u
          → EndsIn (respond_last give_up u t (log (authorize c r) c) (answer a))
      last false t e = λ h. cc
      last true false e = λ h. gives_up _
      last true true e = λ h. cc
  exchange-EndsIn r c (a ∷ b ∷ rest) h =
      more (is_unauthorized (answer a)) (has_refresh c) refl
        (λ body.
          exchange-EndsIn (with_token body r)
            (store_access body (log refresh_request (log (authorize c r) c))) rest)
        h
    where
      more :
          (u t : Bool)
          → is_unauthorized (answer a) ≡ u
          → ((body : Body)
              → EndsIn (
                  exchange give_up
                    (with_token body r)
                    (store_access body (log refresh_request (log (authorize c r) c)))
                    rest))
          → EndsIn (
              respond give_up
                (λ body.
                  exchange give_up
                    (with_token body r)
                    (store_access body (log refresh_request (log (authorize c r) c)))
                    rest)
                u
                t
                (log (authorize c r) c)
                (answer a)
                b
                rest)
      more false t e ih = λ h. cc
      more true false e ih = λ h. gives_up _
      more true true e ih = refreshed-EndsIn _ _ (answer a) rest (answer b) ih
