-- ===== src/Http/Interceptor.antt =====
-- The response interceptor that webClient/frontend/src/services/api.ts and
-- managerServer/frontend/src/services/api.ts share: on a 401, one request for a new access token and
-- then the same request again. `give_up` is what each of them does when there is no new token.
use waddle_perf.Common.{List, [], ◌∷◌, Bool, true, false, ◌==◌, none, some}
use waddle_perf.Http.{
  Body, Reply, Request, Client, Outcome, resolved, rejected, pending, answer, Run, log, authorize,
  bearer,
}
use waddle_perf.Http.Storage.{set_item, truthy, text_of}

-- `axios.post(…, { refresh_token })`, which goes past the interceptors.
abbrev pub refresh_request : Request
refresh_request = record { method = "POST"; url = "/api/v1/auth/refresh"; authorization = none }

-- `localStorage.setItem('access_token', response.data.access_token)`
abbrev pub store_access : Body → Client → Client
store_access body c = record c {
  storage = set_item "access_token" (text_of body.access_token) c.storage;
}

-- `config.headers.Authorization = …` of the new token.
abbrev pub with_token : Body → Request → Request
with_token body r = record r { authorization = some (bearer (text_of body.access_token)) }

-- `error.response?.status === 401`
abbrev pub is_unauthorized : Outcome → Bool
is_unauthorized (rejected f) = elim f.status [ none ↦ false | some s ↦ s == 401 ]
is_unauthorized _ = false

abbrev pub has_refresh : Client → Bool
has_refresh c = truthy (c.storage "refresh_token")

module _ (give_up : Client → Client) where
  -- Behind the reply to the refresh request; `again` sends the first request once more.
  unfoldable pub refreshed : (Body → Run) → Client → Outcome → List Reply → Outcome → Run
  refreshed again c o rest (resolved body) = again body
  refreshed again c o rest (rejected f) = (give_up c, o, rest)
  refreshed again c o rest pending = (c, pending, rest)

  -- Behind the reply to the request itself, when another reply `b` is to come: whether it was a
  -- 401, and whether there is a refresh token.
  unfoldable pub respond : (Body → Run) → Bool → Bool → Client → Outcome → Reply → List Reply → Run
  unfolding refreshed
  respond again false refresh c o b rest = (c, o, b ∷ rest)
  respond again true false c o b rest = (give_up c, o, b ∷ rest)
  respond again true true c o b rest = refreshed again (log refresh_request c) o rest (answer b)

  -- The same when no reply is to come.
  unfoldable pub respond_last : Bool → Bool → Client → Outcome → Run
  respond_last false refresh c o = (c, o, [])
  respond_last true false c o = (give_up c, o, [])
  respond_last true true c o = (log refresh_request c, pending, [])

  -- A call of the client: the request interceptor, the request, the response interceptor.
  unfoldable pub exchange : Request → Client → List Reply → Run
  unfolding respond respond_last
  exchange r c [] = (log (authorize c r) c, pending, [])
  exchange r c (a ∷ []) =
      respond_last (is_unauthorized (answer a)) (has_refresh c) (log (authorize c r) c) (answer a)
  exchange r c (a ∷ b ∷ rest) =
      let c' = log (authorize c r) c in
      respond
        (λ body. exchange (with_token body r) (store_access body (log refresh_request c')) rest)
        (is_unauthorized (answer a)) (has_refresh c) c' (answer a) b rest
