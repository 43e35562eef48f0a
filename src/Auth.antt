-- ===== src/Auth.antt =====
-- The provider of managerServer/frontend/src/contexts/AuthContext.tsx: who is signed in, and what of
-- it is in `localStorage`. `JSON` on users is an interface; `parse` gives nothing where it throws.
pub mod Laws
use Prim.Native.String.{String}
use mathlib.Core.Option
use waddle_perf.Common.{List, Bool, true, false, ◌&&◌, Option, none, some, if◌then◌else◌}
use waddle_perf.Types.{User}
use waddle_perf.Http.{Body, Reply, Client, Outcome, resolved, rejected, pending, Run}
use waddle_perf.Http.Storage.{set_item, remove_item, truthy, text_of}
use waddle_perf.ManagerApi

pub record Json : Type 0 where
  pub stringify : User → String
  pub parse : String → Option User

pub record AuthState : Type 0 where
  pub user : Option User
  pub token : Option String
  pub is_loading : Bool

abbrev pub initial : AuthState
initial = record { user = none; token = none; is_loading = true }

-- `!!token && !!user`
abbrev pub is_some : Option User → Bool
is_some none = false
is_some (some u) = true

abbrev pub is_authenticated : AuthState → Bool
is_authenticated s = truthy s.token && is_some s.user

module _ (j : Json) where
  -- The effect of the first render; nothing where `JSON.parse` throws.
  unfoldable pub restore : Client → AuthState → Option AuthState
  restore c s =
      let stored_user = c.storage "user" in
      if truthy (c.storage "auth_token") && truthy stored_user
      then Option.map
          (λ u. record { user = some u; token = c.storage "auth_token"; is_loading = false })
          (j.parse (text_of stored_user))
      else some (record s { is_loading = false })

  abbrev pub store_login : Body → Client → Client
  store_login body c = record c {
    storage =
        set_item "user" (text_of (Option.map j.stringify body.user))
          (set_item "auth_token" (text_of body.token) c.storage);
  }

  unfoldable pub after_login : AuthState → Run → AuthState × Run
  after_login s (c, o, rest) = elim o [
    | resolved body ↦ (
      record s { token = body.token; user = body.user },
      (store_login body c, resolved body, rest),
    )
    | rejected f ↦ (s, (c, rejected f, rest))
    | pending ↦ (s, (c, pending, rest))
  ]

  unfoldable pub login : AuthState → Client → List Reply → AuthState × Run
  login s c replies = after_login s (ManagerApi.login c replies)

abbrev pub forget : Client → Client
forget c = record c { storage = remove_item "user" (remove_item "auth_token" c.storage) }

-- An error of `api.logout` is only logged.
unfoldable pub after_logout : AuthState → Run → AuthState × Run
after_logout s (c, o, rest) = elim o [
  | resolved body ↦ (record s { token = none; user = none }, (forget c, resolved body, rest))
  | rejected f ↦ (record s { token = none; user = none }, (forget c, rejected f, rest))
  | pending ↦ (s, (c, pending, rest))
]

unfoldable pub logout : AuthState → Client → List Reply → AuthState × Run
logout s c replies = after_logout s (ManagerApi.logout c replies)
