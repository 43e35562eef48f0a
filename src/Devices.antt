-- ===== src/Devices.antt =====
-- The devices page of managerServer/frontend/src/pages/Devices.tsx: its filters and pages, the
-- requests that its effect sends, and the replies, which may come in any order. What the server
-- answers is a function of the query.
pub mod Laws
pub mod Page
pub mod Actions
pub mod Allowed
use Prim.Native.String.{String}
use text.Mathlib.Text.{◌==◌ as str_eq}
use waddle_perf.Common.{
  at, ℕ, zero, suc, ◌+◌, ◌-◌, ◌/◌, List, [], ◌∷◌, ◌++◌, Bool, true, false, not, ◌&&◌, ◌||◌, ◌==◌,
  ltb, if◌then◌else◌, Option, none, some, length,
}
use waddle_perf.Pages.{error_text}
use waddle_perf.Types.{User}
use waddle_perf.Routes.{role_is}

pub record Device : Type 0 where
  pub id : ℕ
  pub device_serial : String
  pub device_hostname : String
  pub device_os : String
  pub device_os_version : String
  pub client_type : String
  pub client_version : Option String
  pub enrolled_at : String
  pub last_seen : Option String
  pub is_active : Bool
  pub ou_id : ℕ
  pub ou_name : String
  pub minutes_since_last_seen : Option ℕ
  pub status : String

-- What a request asks for.
pub record Query : Type 0 where
  pub search : String
  pub status : String
  pub page : ℕ

pub data Answer : Type 0 where
  found : (devices : List Device) (pages : ℕ) → Answer
  failed : (error : Option String) → Answer

-- `requests` are the queries sent so far, the first one first; `newest` is the place of the one that
-- the effect sent last.
pub record DevicesState : Type 0 where
  pub devices : List Device
  pub loading : Bool
  pub search_term : String
  pub status_filter : String
  pub page : ℕ
  pub total_pages : ℕ
  pub error : String
  pub requests : List Query
  pub newest : ℕ

abbrev pub query_of : DevicesState → Query
query_of s = record { search = s.search_term; status = s.status_filter; page = s.page }

-- `fetchDevices` up to its `await`, with the query of the render that it belongs to.
abbrev pub send : Query → DevicesState → DevicesState
send q s = record s { loading = true; requests = s.requests ++ q ∷ [] }

-- The effect, behind the first render and each change of the search, the status or the page.
unfoldable pub effect : DevicesState → DevicesState
effect s = record (send (query_of s) s) { newest = length s.requests }

abbrev pub initial : DevicesState
initial = record {
  devices = [];
  loading = true;
  search_term = "";
  status_filter = "all";
  page = 1;
  total_pages = 1;
  error = "";
  requests = [];
  newest = 0;
}

-- `fetchDevices` behind its `await`.
unfoldable pub receive : Answer → DevicesState → DevicesState
receive (found devices pages) s = record s {
  devices = devices;
  total_pages = pages;
  error = "";
  loading = false;
}
receive (failed e) s = record s { error = error_text "Failed to fetch devices" e; loading = false }

-- `refetch q` is `fetchDevices` behind a device was deactivated or reactivated: `q` is the query of
-- the render in which the button was clicked. `replied i` is the reply to the request in place `i`.
pub data Event : Type 0 where
  edit_search edit_status : String → Event
  previous next : Event
  refetch : Query → Event
  replied : ℕ → Event

module _ (serve : Query → Answer) where
  abbrev pub receive_at : Option Query → DevicesState → DevicesState
  receive_at none s = s
  receive_at (some q) s = receive (serve q) s

  unfoldable pub step : Event → DevicesState → DevicesState
  unfolding effect
  step (edit_search term) s = effect (record s { search_term = term; page = 1 })
  step (edit_status status) s = effect (record s { status_filter = status; page = 1 })
  step previous s = if s.page == 1 then s else effect (record s { page = s.page - 1 })
  step next s = if s.page == s.total_pages then s else effect (record s { page = s.page + 1 })
  step (refetch q) s = send q s
  step (replied i) s = receive_at (at i s.requests) s

  abbrev pub run : List Event → DevicesState → DevicesState
  run [] s = s
  run (e ∷ es) s = run es (step e s)

-- What the column "Last Seen" says.
pub data LastSeen : Type 0 where
  never unknown just_now : LastSeen
  minutes_ago hours_ago days_ago : ℕ → LastSeen

unfoldable pub format_minutes : ℕ → LastSeen
format_minutes m =
    if ltb m 1
    then just_now
    else if ltb m 60
    then minutes_ago m
    else if ltb (m / 60) 24
    then hours_ago (m / 60)
    else days_ago (m / 60 / 24)

unfoldable pub format_last_seen : Option String → Option ℕ → LastSeen
format_last_seen none minutes = never
format_last_seen (some s) none = if str_eq s "" then never else unknown
format_last_seen (some s) (some m) = if str_eq s "" then never else format_minutes m

abbrev pub can_manage_devices : Option User → Bool
can_manage_devices user = role_is user "global_admin" || role_is user "ou_admin"
