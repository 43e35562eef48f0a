-- ===== src/Profile/View.antt =====
-- What managerServer/frontend/src/pages/Profile.tsx renders; the date of the account's creation is
-- left out.
use Prim.Native.String.{String}
use waddle_perf.Common.{Bool, not, if◌then◌else◌, Option, none, some}
use waddle_perf.Pages.{non_empty}
use waddle_perf.Regex.{Text}
use waddle_perf.Types.{User}
use waddle_perf.Profile.{ProfileState}

pub record Account : Type 0 where
  pub username : String
  pub email : String
  pub role : String
  pub status : String
  pub mfa_status : String

-- The QR code's text, the secret to type in, and the code of the authenticator.
pub record MfaSetup : Type 0 where
  pub qr : String
  pub secret : String
  pub code : Text

-- `enable_mfa` is the button; the password form holds both fields.
pub record Sections : Type 0 where
  pub error : Option String
  pub success : Option String
  pub account : Account
  pub api_key : Option String
  pub enable_mfa : Bool
  pub password_form : Option (Text × Text)
  pub mfa_setup : Option MfaSetup

pub data ProfileView : Type 0 where
  spinner load_failed : ProfileView
  sections : Sections → ProfileView

abbrev pub account_of : User → Account
account_of u = record {
  username = u.username;
  email = u.email;
  role = u.role;
  status = if u.is_active then "Active" else "Inactive";
  mfa_status = if u.mfa_enabled then "Enabled" else "Disabled";
}

abbrev pub mfa_setup_of : ProfileState → MfaSetup
mfa_setup_of s = record { qr = s.mfa_qr_uri; secret = s.mfa_secret; code = s.mfa_verify_code }

abbrev pub sections_of : User → ProfileState → Sections
sections_of u s = record {
  error = non_empty (some s.error);
  success = non_empty (some s.success);
  account = account_of u;
  api_key = non_empty u.api_key;
  enable_mfa = not u.mfa_enabled;
  password_form =
      if s.show_password_change then some (s.new_password, s.confirm_password) else none;
  mfa_setup = if s.show_mfa_setup then some (mfa_setup_of s) else none;
}

abbrev pub view_of : Option User → ProfileState → ProfileView
view_of none s = load_failed
view_of (some u) s = sections (sections_of u s)

unfoldable pub view : ProfileState → ProfileView
view s = if s.loading then spinner else view_of s.user s
