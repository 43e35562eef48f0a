-- ===== src/Http/Keeps.antt =====
-- What a call through the shared response interceptor leaves as it was.
use waddle_perf.Common.{◌≡◌, refl, sym, ◌∙◌, inl, inr, List, [], ◌∷◌, Bool, true, false, Bool-cases}
use waddle_perf.Http.{
  Body, Reply, Request, Client, Outcome, resolved, rejected, pending, answer, Run, log, authorize,
}
use waddle_perf.Http.Interceptor.{
  refresh_request, store_access, with_token, is_unauthorized, has_refresh, refreshed, respond,
  respond_last, exchange,
}

-- What a call that does not fail with 401 keeps: any property that neither a logged request nor a
-- stored access token changes.
module _ (give_up : Client → Client) (P : Client → Type 0)
    (logged : (r : Request) (c : Client) → P c → P (log r c))
    (stored : (body : Body) (c : Client) → P c → P (store_access body c)) where
  abbrev Keeps : Run → Type 0
  Keeps x = is_unauthorized x.1 ≡ false → P x.0

  respond-Keeps :
      (again : Body → Run) (u t : Bool) (c : Client) (o : Outcome) (b : Reply) (rest : List Reply)
      → is_unauthorized o ≡ u
      → P c
      → ((body : Body) → Keeps (again body))
      → Keeps (respond give_up again u t c o b rest)
  unfolding respond
  respond-Keeps again false t c o b rest e p ih = λ h. p
  respond-Keeps again true false c o b rest e p ih = λ h. cc
  respond-Keeps again true true c o b rest e p ih = go (answer b)
    where
      go : (x : Outcome) → Keeps (refreshed give_up again (log refresh_request c) o rest x)
      go (resolved body) = ih body
      go (rejected f) = λ h. cc
      go pending = λ h. logged refresh_request c p

  pub exchange-Keeps :
      (r : Request) (c : Client) (replies : List Reply)
      → P c
      → is_unauthorized (exchange give_up r c replies).1 ≡ false
      → P (exchange give_up r c replies).0
  unfolding exchange
  exchange-Keeps r c [] p h = logged _ c p
  exchange-Keeps r c (a ∷ []) p h = last (is_unauthorized (answer a)) (has_refresh c) refl h
    where
      last :
          (u t : Bool)
          → is_unauthorized (answer a) ≡ u
          → Keeps (respond_last give_up u t (log (authorize c r) c) (answer a))
      last false t e = λ h. logged _ c p
      last true false e = λ h. cc
      last true true e = λ h. logged refresh_request _ (logged _ c p)
  exchange-Keeps r c (a ∷ b ∷ rest) p h =
      let c' = log (authorize c r) c in
      let p' = logged (authorize c r) c p in
      respond-Keeps _ (is_unauthorized (answer a)) (has_refresh c) c' (answer a) b rest refl p'
        (λ body.
          exchange-Keeps (with_token body r) (store_access body (log refresh_request c')) rest
            (stored body _ (logged refresh_request c' p')))
        h

-- With no refresh token, a call that does not fail with 401 leaves the storage alone.
pub exchange-storage :
    (give_up : Client → Client) (r : Request) (c : Client) (replies : List Reply)
    → has_refresh c ≡ false
    → is_unauthorized (exchange give_up r c replies).1 ≡ false
    → (exchange give_up r c replies).0.storage ≡ c.storage
unfolding exchange
exchange-storage give_up r c [] h u = refl
exchange-storage give_up r c (a ∷ []) h u = elim (Bool-cases (is_unauthorized (answer a))) [
  | inl e ↦ absurd (let f = rw (e, h) at u in let g = sym e ∙ f in cc)
  | inr e ↦ rw e
]
exchange-storage give_up r c (a ∷ b ∷ rest) h u = elim (Bool-cases (is_unauthorized (answer a))) [
  | inl e ↦ absurd (let f = rw (e, h) at u in let g = sym e ∙ f in cc)
  | inr e ↦ rw e
]
