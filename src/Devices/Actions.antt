-- ===== src/Devices/Actions.antt =====
-- The requests of managerServer/frontend/src/pages/Devices.tsx that deactivate and reactivate a
-- device, and those for the statistics of the cards, beside the requests for the devices.
use Prim.Native.String.{String}
use waddle_perf.Common.{
  at, ℕ, ◌+◌, List, [], ◌∷◌, ◌++◌, Bool, not, if◌then◌else◌, Option, none, some, ◌==◌,
}
use waddle_perf.Pages.{error_text}
use waddle_perf.Types.{User}
use waddle_perf.Devices.{
  Device, Query, Answer, DevicesState, query_of, send, effect, initial, Event, edit_search,
  edit_status, previous, next, refetch, replied, step, can_manage_devices,
}
use waddle_perf.Devices.Page.{DeviceStats, Button, deactivate, reactivate, button_of}

-- A request for a device, with the query of the render in which its button was clicked.
pub record Action : Type 0 where
  pub button : Button
  pub device_id : ℕ
  pub query : Query

pub data ActionReply : Type 0 where
  done : ActionReply
  refused : (error : Option String) → ActionReply

-- `actions` are the requests for devices so far, the first one first; `stats_requests` counts those
-- for the statistics. `alert` is what `alert` showed last.
pub record PageState : Type 0 where
  pub base : DevicesState
  pub stats : Option DeviceStats
  pub actions : List Action
  pub stats_requests : ℕ
  pub alert : Option String

-- Behind the first render and its effect.
abbrev pub mounted : PageState
mounted = record {
  base = effect initial;
  stats = none;
  actions = [];
  stats_requests = 1;
  alert = none;
}

-- `fetchStats` up to its `await`.
abbrev pub fetch_stats : PageState → PageState
fetch_stats s = record s { stats_requests = s.stats_requests + 1 }

abbrev pub ask : Button → ℕ → PageState → PageState
ask b i s = record s {
  actions = s.actions ++ record { button = b; device_id = i; query = query_of s.base } ∷ [];
}

unfoldable pub handle_deactivate : Bool → ℕ → PageState → PageState
handle_deactivate confirmed i s = if not confirmed then s else ask deactivate i s

unfoldable pub handle_reactivate : ℕ → PageState → PageState
handle_reactivate i s = ask reactivate i s

abbrev pub fallback : Button → String
fallback deactivate = "Failed to deactivate device"
fallback reactivate = "Failed to reactivate device"

-- Both handlers behind their `await`.
unfoldable pub receive_action : Action → ActionReply → PageState → PageState
receive_action a done s = fetch_stats (record s { base = send a.query s.base })
receive_action a (refused e) s = record s { alert = some (error_text (fallback a.button) e) }

-- `clicked row` is the button of a row, with what `confirm` returns where it is asked; `settled i` is
-- a reply to the request for a device in place `i`; `counted` is a reply to one for the statistics,
-- `none` a failure.
pub data PageEvent : Type 0 where
  list_event : Event → PageEvent
  clicked : (confirmed : Bool) (row : ℕ) → PageEvent
  settled : (place : ℕ) → ActionReply → PageEvent
  counted : Option DeviceStats → PageEvent

-- Rows are there when the page is not loading.
abbrev pub row_device : ℕ → PageState → Option Device
row_device i s = if s.base.loading then none else at i s.base.devices

abbrev pub press : Bool → Device → Option Button → PageState → PageState
press confirmed d none s = s
press confirmed d (some deactivate) s = handle_deactivate confirmed d.id s
press confirmed d (some reactivate) s = handle_reactivate d.id s

abbrev pub press_row : Bool → Bool → Option Device → PageState → PageState
press_row manages confirmed none s = s
press_row manages confirmed (some d) s = press confirmed d (button_of manages d) s

abbrev pub receive_at_place : Option Action → ActionReply → PageState → PageState
receive_at_place none r s = s
receive_at_place (some a) r s = receive_action a r s

abbrev pub keep_stats : Option DeviceStats → PageState → PageState
keep_stats none s = s
keep_stats (some d) s = record s { stats = some d }

-- How often the effect runs behind an event of the list; it also fetches the statistics.
unfoldable pub effects : Event → DevicesState → ℕ
effects (edit_search term) s = 1
effects (edit_status status) s = 1
effects previous s = if s.page == 1 then 0 else 1
effects next s = if s.page == s.total_pages then 0 else 1
effects (refetch q) s = 0
effects (replied i) s = 0

module _ (user : Option User) (serve : Query → Answer) where
  -- The requests of `refetch` are made by `settled` here.
  abbrev pub list_step : Event → DevicesState → DevicesState
  list_step (refetch q) s = s
  list_step e s = step serve e s

  unfoldable pub page_step : PageEvent → PageState → PageState
  page_step (list_event e) s = record s {
    base = list_step e s.base;
    stats_requests = s.stats_requests + effects e s.base;
  }
  page_step (clicked confirmed i) s =
      press_row (can_manage_devices user) confirmed (row_device i s) s
  page_step (settled i r) s = receive_at_place (at i s.actions) r s
  page_step (counted o) s = keep_stats o s

  abbrev pub page_run : List PageEvent → PageState → PageState
  page_run [] s = s
  page_run (e ∷ es) s = page_run es (page_step e s)
