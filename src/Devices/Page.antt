-- ===== src/Devices/Page.antt =====
-- What managerServer/frontend/src/pages/Devices.tsx renders: cards, filters, table and pages. Styles
-- are left out.
use Prim.Native.String.{String}
use text.Mathlib.Text.{◌==◌ as str_eq}
use waddle_perf.Common.{
  ℕ, ◌+◌, List, [], ◌∷◌, map, Bool, not, ltb, ◌==◌, if◌then◌else◌, Option, none, some,
}
use waddle_perf.Pages.{non_empty}
use waddle_perf.Types.{User}
use waddle_perf.Devices.{Device, DevicesState, LastSeen, format_last_seen, can_manage_devices}

pub record DeviceStats : Type 0 where
  pub total : ℕ
  pub online : ℕ
  pub recent : ℕ
  pub offline : ℕ
  pub stale : ℕ

pub data Colour : Type 0 where
  green yellow orange red gray : Colour

-- The colours of `getStatusBadge`; the names that every object inherits are left out.
unfoldable pub get_status_badge : String → Colour
get_status_badge status =
    if str_eq status "online"
    then green
    else if str_eq status "recent"
    then yellow
    else if str_eq status "offline"
    then orange
    else if str_eq status "stale"
    then red
    else gray

unfoldable pub get_status_text : String → String
get_status_text status =
    if str_eq status "online"
    then "Online"
    else if str_eq status "recent"
    then "Recent"
    else if str_eq status "offline"
    then "Offline"
    else if str_eq status "stale"
    then "Stale"
    else if str_eq status "never"
    then "Never"
    else "Unknown"

pub record Cards : Type 0 where
  pub total : ℕ
  pub online : ℕ
  pub recent : ℕ
  pub offline_stale : ℕ

abbrev pub cards_of : Option DeviceStats → Option Cards
cards_of none = none
cards_of (some d) = some (record {
  total = d.total;
  online = d.online;
  recent = d.recent;
  offline_stale = d.offline + d.stale;
})

-- The button of a row.
pub data Button : Type 0 where
  deactivate reactivate : Button

pub record Row : Type 0 where
  pub hostname : String
  pub serial : String
  pub os : String × String
  pub organization : String
  pub client_type : String
  pub client_version : Option String
  pub badge : Colour
  pub status : String
  pub inactive : Bool
  pub last_seen : LastSeen
  pub button : Option Button

-- `device.ou_name || 'N/A'`
abbrev pub organization_of : String → String
organization_of name = if str_eq name "" then "N/A" else name

unfoldable pub button_of : Bool → Device → Option Button
button_of manages d =
    if manages then some (if d.is_active then deactivate else reactivate) else none

abbrev pub row : Bool → Device → Row
row manages d = record {
  hostname = d.device_hostname;
  serial = d.device_serial;
  os = (d.device_os, d.device_os_version);
  organization = organization_of d.ou_name;
  client_type = d.client_type;
  client_version = non_empty d.client_version;
  badge = get_status_badge d.status;
  status = get_status_text d.status;
  inactive = not d.is_active;
  last_seen = format_last_seen d.last_seen d.minutes_since_last_seen;
  button = button_of manages d;
}

pub data Table : Type 0 where
  loading_text no_devices : Table
  rows : List Row → Table

abbrev pub table_of : Bool → List Device → Table
table_of manages [] = no_devices
table_of manages (d ∷ ds) = rows (map (row manages) (d ∷ ds))

-- "Page `page` of `pages`", and whether the two buttons are disabled.
pub record Pages : Type 0 where
  pub page : ℕ
  pub pages : ℕ
  pub previous_disabled : Bool
  pub next_disabled : Bool

pub record DevicesView : Type 0 where
  pub error : Option String
  pub cards : Option Cards
  pub search_term : String
  pub status_filter : String
  pub table : Table
  pub pages : Option Pages

abbrev pub pages_of : DevicesState → Pages
pages_of s = record {
  page = s.page;
  pages = s.total_pages;
  previous_disabled = s.page == 1;
  next_disabled = s.page == s.total_pages;
}

unfoldable pub view : Option User → Option DeviceStats → DevicesState → DevicesView
view user stats s = record {
  error = non_empty (some s.error);
  cards = cards_of stats;
  search_term = s.search_term;
  status_filter = s.status_filter;
  table = if s.loading then loading_text else table_of (can_manage_devices user) s.devices;
  pages = if ltb 1 s.total_pages then some (pages_of s) else none;
}
