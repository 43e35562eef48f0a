-- ===== src/Http.antt =====
-- What the two API clients share: `localStorage`, requests, and the replies that the network gives,
-- one for each request in the order in which they are sent. axios and the browser are not in the
-- repository: a reply is data from outside, a status below 200 or above 299 rejects (axios'
-- `validateStatus`), and a request with no reply yet stays pending.
pub mod Storage
pub mod Interceptor
pub mod Session
pub mod Ends
pub mod Keeps
use Prim.Native.String.{String, ◌++◌}
use waddle_perf.Common.{ℕ, List, [], ◌∷◌, Bool, ◌&&◌, leb, Option, none, some, if◌then◌else◌}
use waddle_perf.Types.{User}
use Storage.{LocalStorage, truthy, text_of}

-- The fields of a reply's body that the code reads.
pub record Body : Type 0 where
  pub access_token : Option String
  pub refresh_token : Option String
  pub token : Option String
  pub user : Option User
  pub authenticated : Option Bool
  pub auth_enabled : Option Bool
  pub error : Option String

pub data Reply : Type 0 where
  reply : ℕ → Body → Reply
  no_reply : Reply

abbrev pub is_ok : ℕ → Bool
is_ok status = leb 200 status && leb status 299

pub record Request : Type 0 where
  pub method : String
  pub url : String
  pub authorization : Option String

-- The browser: its storage, the page's path, and the requests sent so far, the last one first.
pub record Client : Type 0 where
  pub storage : LocalStorage
  pub location : String
  pub sent : List Request

-- `error.response?.status` and `error.response?.data?.error`
pub record Failure : Type 0 where
  pub status : Option ℕ
  pub error : Option String

-- How a promise stands.
pub data Outcome : Type 0 where
  resolved : Body → Outcome
  rejected : Failure → Outcome
  pending : Outcome

abbrev pub answer : Reply → Outcome
answer no_reply = rejected (record { status = none; error = none })
answer (reply status body) =
    if is_ok status
    then resolved body
    else rejected (record { status = some status; error = body.error })

-- The state behind a call: the browser, how the promise stands, and the replies not used up.
abbrev pub Run : Type 0
Run = Client × Outcome × List Reply

abbrev pub log : Request → Client → Client
log r c = record c { sent = r ∷ c.sent }

-- A request through `axios` itself, past the interceptors.
abbrev pub plain : Request → Client → List Reply → Run
plain r c [] = (log r c, pending, [])
plain r c (a ∷ rest) = (log r c, answer a, rest)

abbrev pub bearer : String → String
bearer token = "Bearer " ++ token

-- The request interceptor of both clients: the stored access token, where there is one, becomes the
-- Authorization header.
abbrev pub authorize : Client → Request → Request
authorize c r =
    if truthy (c.storage "access_token")
    then record r { authorization = some (bearer (text_of (c.storage "access_token"))) }
    else r
