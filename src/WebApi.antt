-- ===== src/WebApi.antt =====
-- The API client of webClient/frontend/src/services/api.ts.
pub mod Laws
use Prim.Native.String.{String}
use waddle_perf.Common.{List, Option, some, if◌then◌else◌, none}
use waddle_perf.Http.{Body, Reply, Request, Client, Outcome, resolved, rejected, pending, Run}
use waddle_perf.Http.Storage.{set_item, remove_item, truthy, text_of}
use waddle_perf.Http.Interceptor.{exchange}

-- `removeItem` of both tokens.
abbrev pub remove_tokens : Client → Client
remove_tokens c = record c {
  storage = remove_item "refresh_token" (remove_item "access_token" c.storage);
}

-- `window.location.href = '/login'` behind the removal of the tokens.
abbrev pub give_up : Client → Client
give_up c = record (remove_tokens c) { location = "/login" }

abbrev pub to : String → String → Request
to method url = record { method = method; url = url; authorization = none }

unfoldable pub send : Request → Client → List Reply → Run
send r c replies = exchange give_up r c replies

-- `if (response.data.x) localStorage.setItem('x', response.data.x)`
abbrev pub store_if : String → Option String → Client → Client
store_if key value c =
    if truthy value then record c { storage = set_item key (text_of value) c.storage } else c

unfoldable pub after_login : Run → Run
after_login (c, o, rest) = elim o [
  | resolved body ↦ (
    store_if "refresh_token" body.refresh_token (store_if "access_token" body.access_token c),
    resolved body,
    rest,
  )
  | rejected f ↦ (c, rejected f, rest)
  | pending ↦ (c, pending, rest)
]

unfoldable pub login : Client → List Reply → Run
login c replies = after_login (send (to "POST" "/api/v1/auth/login") c replies)

unfoldable pub after_logout : Run → Run
after_logout (c, o, rest) = elim o [
  | resolved body ↦ (remove_tokens c, resolved body, rest)
  | rejected f ↦ (c, rejected f, rest)
  | pending ↦ (c, pending, rest)
]

unfoldable pub logout : Client → List Reply → Run
logout c replies = after_logout (send (to "POST" "/api/v1/auth/logout") c replies)

unfoldable pub check_auth_status : Client → List Reply → Run
check_auth_status c replies = send (to "GET" "/api/v1/auth/status") c replies

unfoldable pub run_test : Client → List Reply → Run
run_test c replies = send (to "POST" "/api/v1/tests/") c replies

unfoldable pub check_health : Client → List Reply → Run
check_health c replies = send (to "GET" "/health") c replies
