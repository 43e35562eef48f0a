-- ===== src/ManagerApi.antt =====
-- The API client of managerServer/frontend/src/services/api.ts.
pub mod Laws
pub mod Calls
use Prim.Native.String.{String}
use waddle_perf.Common.{List, Bool, not, Option, none, if◌then◌else◌}
use waddle_perf.Js.Strings.{codes, includes}
use waddle_perf.Http.{Reply, Request, Client, resolved, rejected, pending, Run}
use waddle_perf.Http.Storage.{remove_item}
use waddle_perf.Http.Interceptor.{exchange}

abbrev pub remove_session : Client → Client
remove_session c = record c {
  storage = remove_item "user" (remove_item "refresh_token" (remove_item "access_token" c.storage));
}

-- `window.location.pathname.includes('/login')`
abbrev pub on_login_page : Client → Bool
on_login_page c = includes (codes c.location) (codes "/login")

unfoldable pub give_up : Client → Client
give_up c =
    let d = remove_session c in
    if not (on_login_page c) then record d { location = "/login" } else d

abbrev pub to : String → String → Request
to method url = record { method = method; url = url; authorization = none }

unfoldable pub send : Request → Client → List Reply → Run
send r c replies = exchange give_up r c replies

unfoldable pub login : Client → List Reply → Run
login c replies = send (to "POST" "/api/v1/auth/login") c replies

unfoldable pub after_logout : Run → Run
after_logout (c, o, rest) = elim o [
  | resolved body ↦ (remove_session c, resolved body, rest)
  | rejected f ↦ (c, rejected f, rest)
  | pending ↦ (c, pending, rest)
]

unfoldable pub logout : Client → List Reply → Run
logout c replies = after_logout (send (to "POST" "/api/v1/auth/logout") c replies)
