-- ===== src/Http/Session.antt =====
-- A session that the shared response interceptor renews, over every sequence of replies.
use Prim.Native.String.{String}
use waddle_perf.Common.{
  ℕ, ◌+◌, ◌*◌, ◌≡◌, refl, ap, List, [], ◌∷◌, true, false, arith, some, length, All,
}
use waddle_perf.Http.{
  Body, Reply, reply, Request, Client, is_ok, pending, answer, Run, log, authorize, bearer,
}
use waddle_perf.Http.Storage.{truthy, text_of}
use waddle_perf.Http.Interceptor.{
  refresh_request, store_access, with_token, is_unauthorized, has_refresh, refreshed, respond,
  respond_last, exchange,
}

-- A 401, and the reply to the request for a new token.
pub record Round : Type 0 where
  pub refusal : Body
  pub status : ℕ
  pub grant : Body

abbrev pub IsGrant : Round → Type 0
IsGrant x = is_ok x.status ≡ true

-- The replies of a server that refuses the request in each of these rounds.
abbrev pub stale : List Round → List Reply → List Reply
stale [] rest = rest
stale (x ∷ rounds) rest = reply 401 x.refusal ∷ reply x.status x.grant ∷ stale rounds rest

module _ (give_up : Client → Client) where
  -- There is no bound on the requests of one call: where a refresh token is stored, and the server
  -- refuses the request and answers the refresh n times, the call asks again each time, and is still
  -- pending after 2 n + 1 requests.
  exchange_unbounded :
      (rounds : List Round) (r : Request) (c : Client)
      → has_refresh c ≡ true
      → All IsGrant rounds
      → ((exchange give_up r c (stale rounds [])).1 ≡ pending)
        × (length (exchange give_up r c (stale rounds [])).0.sent
            ≡ 2 * length rounds + 1 + length c.sent)
  unfolding exchange refreshed
  exchange_unbounded [] r c h g = (refl, omega arith)
  exchange_unbounded (x ∷ rounds) r c h (ok, g) =
      let c' = log (authorize c r) c in
      let next = store_access x.grant (log refresh_request c') in
      let (waits, count) = exchange_unbounded rounds (with_token x.grant r) next h g in
      rw (h, ok) (waits, omega (arith, count))

-- The call ended with the reply `a`; the token `t` is stored, and the last request carried it.
pub record IsRecovered (r : Request) (a : Reply) (t : String) (rest : List Reply) (x : Run)
    : Type 0 where
  pub answered : x.1 ≡ answer a
  pub stored : x.0.storage "access_token" ≡ some t
  pub before : List Request
  pub carried : x.0.sent ≡ record r { authorization = some (bearer t) } ∷ before
  pub unused : x.2 ≡ rest

-- What holds of the request with a renewed token holds of the request itself, which has no token of
-- its own.
with_token-IsRecovered :
    (body : Body) (r : Request) (a : Reply) (t : String) (rest : List Reply) {x : Run}
    → IsRecovered (with_token body r) a t rest x
    → IsRecovered r a t rest x
with_token-IsRecovered body r a t rest k = record {
  answered = k.answered;
  stored = k.stored;
  before = k.before;
  carried = k.carried;
  unused = k.unused;
}

module _ (give_up : Client → Client) (a : Reply) (t : String) where
  -- The reply that ends the call, once the token is stored and goes with the request.
  recovers_at_last :
      (r : Request) (c : Client) (rest : List Reply)
      → c.storage "access_token" ≡ some t
      → truthy (some t) ≡ true
      → is_unauthorized (answer a) ≡ false
      → IsRecovered r a t rest (exchange give_up r c (a ∷ rest))
  unfolding exchange respond respond_last
  recovers_at_last r c [] s f u =
      rw u (record {
        answered = refl;
        stored = s;
        before = c.sent;
        carried = rw (s, f);
        unused = refl;
      })
  recovers_at_last r c (b ∷ rest) s f u =
      rw u (record {
        answered = refl;
        stored = s;
        before = c.sent;
        carried = rw (s, f);
        unused = refl;
      })

  -- Where a refresh token is stored, and the server refuses the request in any number of rounds and
  -- once more, and answers the refresh each time, the last time with the token t, which is not empty,
  -- a reply that is no 401 ends the call with that reply; then t is the stored access token, and the
  -- last request carried it, whatever was granted in the rounds before.
  pub exchange-IsRecovered :
      (rounds : List Round) (last : Round) (r : Request) (c : Client) (rest : List Reply)
      → has_refresh c ≡ true
      → All IsGrant rounds
      → IsGrant last
      → last.grant.access_token ≡ some t
      → truthy (some t) ≡ true
      → is_unauthorized (answer a) ≡ false
      → IsRecovered r a t rest (exchange give_up r c (stale rounds (stale (last ∷ []) (a ∷ rest))))
  unfolding exchange respond refreshed
  exchange-IsRecovered [] last r c rest h g ok e f u =
      let c' = store_access last.grant (log refresh_request (log (authorize c r) c)) in
      rw (h, ok)
        (with_token-IsRecovered last.grant r a t rest
          (recovers_at_last (with_token last.grant r) c' rest (ap (λ o. some (text_of o)) e) f u))
  exchange-IsRecovered (x ∷ rounds) last r c rest h (k, g) ok e f u =
      let c' = store_access x.grant (log refresh_request (log (authorize c r) c)) in
      rw (h, k)
        (with_token-IsRecovered x.grant r a t rest
          (exchange-IsRecovered rounds last (with_token x.grant r) c' rest h g ok e f u))
