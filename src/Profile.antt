-- ===== src/Profile.antt =====
-- The page managerServer/frontend/src/pages/Profile.tsx: the account, the setup of the second factor,
-- and the change of the password. A reply may come at any time and in any order; what a successful
-- one holds is `Body`, of which each call reads its own fields. `auth_user` is the user of the
-- authentication context.
pub mod View
pub mod Laws
use Prim.Native.String.{String}
use text.Mathlib.Text.{◌==◌ as str_eq}
use waddle_perf.Common.{
  at, ℕ, zero, suc, ◌+◌, ◌-◌, List, [], ◌∷◌, ◌++◌, length, Bool, true, false, not, ◌&&◌, ◌==◌, ltb,
  if◌then◌else◌, Option, none, some,
}
use waddle_perf.Regex.{Text}
use waddle_perf.Js.Strings.{text_eq}
use waddle_perf.Types.{User}
use waddle_perf.Pages.{error_text, non_empty}

pub data Call : Type 0 where
  get_user : (user_id : ℕ) → Call
  setup_mfa : Call
  verify_mfa : (code : Text) → Call
  change_user_password : (user_id : ℕ) (password : Text) → Call

pub record Body : Type 0 where
  pub user : User
  pub secret : String
  pub qr_uri : String

pub data Reply : Type 0 where
  ok : Body → Reply
  failed : (error : Option String) → Reply

-- `sent` are the calls made so far, the first one first; `timers` is the number of timeouts of
-- `copyToClipboard` that are to come.
pub record ProfileState : Type 0 where
  pub user : Option User
  pub loading : Bool
  pub error : String
  pub success : String
  pub show_mfa_setup : Bool
  pub mfa_secret : String
  pub mfa_qr_uri : String
  pub mfa_verify_code : Text
  pub show_password_change : Bool
  pub new_password : Text
  pub confirm_password : Text
  pub sent : List Call
  pub timers : ℕ

abbrev pub initial : ProfileState
initial = record {
  user = none;
  loading = true;
  error = "";
  success = "";
  show_mfa_setup = false;
  mfa_secret = "";
  mfa_qr_uri = "";
  mfa_verify_code = [];
  show_password_change = false;
  new_password = [];
  confirm_password = [];
  sent = [];
  timers = 0;
}

abbrev pub make_call : Call → ProfileState → ProfileState
make_call c s = record s { sent = s.sent ++ c ∷ [] }

abbrev pub clear_messages : ProfileState → ProfileState
clear_messages s = record s { error = ""; success = "" }

-- `loadUserProfile` up to its `await`.
unfoldable pub load_user_profile : Option User → ProfileState → ProfileState
load_user_profile none s = s
load_user_profile (some u) s = make_call (get_user u.id) (record s { loading = true })

unfoldable pub handle_setup_mfa : ProfileState → ProfileState
handle_setup_mfa s = make_call setup_mfa (clear_messages s)

unfoldable pub handle_verify_mfa : ProfileState → ProfileState
handle_verify_mfa s = make_call (verify_mfa s.mfa_verify_code) (clear_messages s)

abbrev pub change_call : Option User → ProfileState → ProfileState
change_call none s = s
change_call (some u) s = make_call (change_user_password u.id s.new_password) s

unfoldable pub handle_change_password : Option User → ProfileState → ProfileState
handle_change_password auth_user s =
    let t = clear_messages s in
    if not (text_eq s.new_password s.confirm_password)
    then record t { error = "Passwords do not match" }
    else if ltb (length s.new_password) 8
    then record t { error = "Password must be at least 8 characters" }
    else change_call auth_user t

-- The text goes to the clipboard.
unfoldable pub copy_to_clipboard : ProfileState → ProfileState
copy_to_clipboard s = record s { success = "Copied to clipboard!"; timers = s.timers + 1 }

abbrev pub show_error : String → Option String → ProfileState → ProfileState
show_error fallback e s = record s { error = error_text fallback e }

-- What the handlers do behind their `await`.
unfoldable pub receive : Option User → Call → Reply → ProfileState → ProfileState
receive auth_user (get_user i) (ok b) s = record s { user = some b.user; loading = false }
receive auth_user (get_user i) (failed e) s = record (show_error "Failed to load profile" e s) {
  loading = false;
}
receive auth_user setup_mfa (ok b) s = record s {
  mfa_secret = b.secret;
  mfa_qr_uri = b.qr_uri;
  show_mfa_setup = true;
}
receive auth_user setup_mfa (failed e) s = show_error "Failed to setup MFA" e s
receive auth_user (verify_mfa code) (ok b) s = load_user_profile auth_user (record s {
  success = "MFA enabled successfully!";
  show_mfa_setup = false;
  mfa_verify_code = [];
})
receive auth_user (verify_mfa code) (failed e) s = show_error "Failed to verify MFA code" e s
receive auth_user (change_user_password i p) (ok b) s = record s {
  success = "Password changed successfully!";
  show_password_change = false;
  new_password = [];
  confirm_password = [];
}
receive auth_user (change_user_password i p) (failed e) s =
    show_error "Failed to change password" e s

-- The page but for the spinner and for 'Failed to load user profile'.
abbrev pub shown_user : ProfileState → Option User
shown_user s = if s.loading then none else s.user

abbrev pub is_shown : Option User → Bool
is_shown none = false
is_shown (some u) = true

abbrev pub mfa_offered : Option User → Bool
mfa_offered none = false
mfa_offered (some u) = not u.mfa_enabled

abbrev pub has_api_key : Option User → Bool
has_api_key none = false
has_api_key (some u) = elim u.api_key [ none ↦ false | some k ↦ not (str_eq k "") ]

-- The browser's checks of the fields, which a submission passes first, are left out. `timeout` is one
-- of the timeouts of `copyToClipboard`; `replied i` is a reply to the call in place `i`.
pub data Event : Type 0 where
  setup verify submit_password copy_key copy_secret toggle_password cancel_password : Event
  cancel_mfa timeout : Event
  edit_code edit_new edit_confirm : Text → Event
  replied : (place : ℕ) → Reply → Event

-- The form of the password and that of the code are shown.
abbrev pub password_form : ProfileState → Bool
password_form s = is_shown (shown_user s) && s.show_password_change

abbrev pub mfa_form : ProfileState → Bool
mfa_form s = is_shown (shown_user s) && s.show_mfa_setup

module _ (auth_user : Option User) where
  abbrev pub receive_at : Option Call → Reply → ProfileState → ProfileState
  receive_at none r s = s
  receive_at (some c) r s = receive auth_user c r s

  unfoldable pub step : Event → ProfileState → ProfileState
  step setup s = if mfa_offered (shown_user s) then handle_setup_mfa s else s
  step verify s = if mfa_form s then handle_verify_mfa s else s
  step submit_password s = if password_form s then handle_change_password auth_user s else s
  step copy_key s = if has_api_key (shown_user s) then copy_to_clipboard s else s
  step copy_secret s = if mfa_form s then copy_to_clipboard s else s
  step toggle_password s =
      if is_shown (shown_user s)
      then record s { show_password_change = not s.show_password_change }
      else s
  step cancel_password s = if password_form s then record s { show_password_change = false } else s
  step cancel_mfa s = if mfa_form s then record s { show_mfa_setup = false } else s
  step timeout s = if s.timers == 0 then s else record s { success = ""; timers = s.timers - 1 }
  step (edit_code v) s = if mfa_form s then record s { mfa_verify_code = v } else s
  step (edit_new v) s = if password_form s then record s { new_password = v } else s
  step (edit_confirm v) s = if password_form s then record s { confirm_password = v } else s
  step (replied i r) s = receive_at (at i s.sent) r s

  abbrev pub run : List Event → ProfileState → ProfileState
  run [] s = s
  run (e ∷ es) s = run es (step e s)

  -- Behind the first render and its effect.
  abbrev pub mounted : ProfileState
  mounted = load_user_profile auth_user initial
