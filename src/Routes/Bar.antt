-- ===== src/Routes/Bar.antt =====
-- The logout button, the user's name and the theme button of
-- managerServer/frontend/src/components/Navbar.tsx, over the provider and the routes.
use Prim.Native.String.{String}
use text.Mathlib.Text.{◌==◌ as str_eq}
use waddle_perf.Common.{
  List, false, Option, none, some, if◌then◌else◌, ◌≡◌, ◌≢◌, refl, ap, ◌&&◌, ◌∙◌,
}
use mathlib.Core.Option
use waddle_perf.Types.{User}
use waddle_perf.Http.{Client, Reply, Outcome, resolved, rejected, pending, Run}
use waddle_perf.Auth.{AuthState, is_some, is_authenticated, logout, after_logout}
use waddle_perf.Auth.Laws.{IsForgotten, logout-IsForgotten}
use waddle_perf.Http.Storage.{truthy}
use waddle_perf.ManagerApi
use waddle_perf.Routes.{login, page, follow, links}
use waddle_perf.Routes.Laws.{follow-login}

-- `navigate('/login')` behind the `await`.
unfoldable pub then_navigate : AuthState × Run → AuthState × Run
then_navigate (s, (c, pending, rest)) = (s, (c, pending, rest))
then_navigate (s, (c, o, rest)) = (s, (record c { location = "/login" }, o, rest))

unfoldable pub handle_logout : AuthState → Client → List Reply → AuthState × Run
handle_logout s c replies = then_navigate (logout s c replies)

pub data Icon : Type 0 where
  sun moon arrows : Icon

-- `undefined` for another text.
unfoldable pub get_theme_icon : String → Option Icon
get_theme_icon theme =
    if str_eq theme "light"
    then some sun
    else if str_eq theme "dark"
    then some moon
    else if str_eq theme "auto"
    then some arrows
    else none

pub record Bar : Type 0 where
  pub targets : List String
  pub icon : Option Icon
  pub theme_title : String
  pub user_info : Option String

unfoldable pub bar : AuthState → String → Bar
bar s theme = record {
  targets = links s;
  icon = get_theme_icon theme;
  theme_title = theme;
  user_info = Option.map (λ (u : User). u.username) s.user;
}

-- What the logout leaves: nothing of the session in the provider's state and storage, the browser at
-- the login page, and every path leading there.
pub record IsOut (x : AuthState × Run) : Type 0 where
  pub forgotten : IsForgotten x
  pub at_login : x.1.0.location ≡ "/login"
  pub all_paths : (path : String) → follow 2 x.0 path ≡ page login

IsForgotten-IsOut :
    (s : AuthState) (c : Client) (o : Outcome) (rest : List Reply)
    → s.is_loading ≡ false
    → IsForgotten (s, (c, o, rest))
    → IsOut (s, (record c { location = "/login" }, o, rest))
IsForgotten-IsOut s c o rest l f =
    let no_session : is_authenticated s ≡ false = ap (λ t. truthy t && is_some s.user) f.no_token in
    record {
      forgotten = record {
        no_user = f.no_user;
        no_token = f.no_token;
        no_stored_token = f.no_stored_token;
        no_stored_user = f.no_stored_user;
      };
      at_login = refl;
      all_paths = λ path. follow-login s path l no_session;
    }

then_navigate-IsOut :
    (x : AuthState × Run)
    → x.1.1 ≢ pending
    → x.0.is_loading ≡ false
    → IsForgotten x
    → IsOut (then_navigate x)
unfolding then_navigate
then_navigate-IsOut (s, (c, pending, rest)) h l f = absurd (h refl)
then_navigate-IsOut (s, (c, resolved b, rest)) h l f = IsForgotten-IsOut s c (resolved b) rest l f
then_navigate-IsOut (s, (c, rejected e, rest)) h l f = IsForgotten-IsOut s c (rejected e) rest l f

after_logout-is_loading : (s : AuthState) (x : Run) → (after_logout s x).0.is_loading ≡ s.is_loading
unfolding after_logout
after_logout-is_loading s (c, resolved b, rest) = refl
after_logout-is_loading s (c, rejected e, rest) = refl
after_logout-is_loading s (c, pending, rest) = refl

logout-is_loading :
    (s : AuthState) (c : Client) (replies : List Reply)
    → (logout s c replies).0.is_loading ≡ s.is_loading
unfolding logout
logout-is_loading s c replies = after_logout-is_loading s (ManagerApi.logout c replies)

-- The logout button of the bar: once the network has answered the request, with success or with any
-- error, the user is signed out in the provider's state and in the storage that it restores from, the
-- browser is at the login page, and every path leads there.
pub handle_logout-IsOut :
    (s : AuthState) (c : Client) (replies : List Reply)
    → s.is_loading ≡ false
    → (logout s c replies).1.1 ≢ pending
    → IsOut (handle_logout s c replies)
unfolding handle_logout
handle_logout-IsOut s c replies l h =
    then_navigate-IsOut (logout s c replies) h (logout-is_loading s c replies ∙ l)
      (logout-IsForgotten s c replies h)
