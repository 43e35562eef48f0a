-- ===== src/Theme/Toggle.antt =====
-- webClient/frontend/src/components/ThemeToggle.tsx.
use Prim.Native.String.{String}
use text.Mathlib.Text.{◌==◌ as str_eq}
use waddle_perf.Common.{List, [], ◌∷◌, Bool, if◌then◌else◌}
use waddle_perf.Http.Storage.{LocalStorage, set_item}
use waddle_perf.Theme.{ThemeState, saved_theme, effective_theme, Event, click, system_change}

abbrev pub apply_theme : Bool → String → ThemeState → ThemeState
apply_theme prefers_dark selected s = record s { attribute = effective_theme prefers_dark selected }

-- The effect that runs behind the first render and behind each change of the theme.
unfoldable pub effect : Bool → ThemeState → ThemeState
effect prefers_dark s =
    let t = apply_theme prefers_dark s.theme s in
    record t { storage = set_item "theme" s.theme t.storage }

unfoldable pub mount : Bool → LocalStorage → ThemeState
unfolding effect
mount prefers_dark st =
    effect prefers_dark (record { theme = saved_theme st; attribute = ""; storage = st })

unfoldable pub next_theme : String → String
next_theme current =
    if str_eq current "light" then "dark" else if str_eq current "dark" then "auto" else "light"

unfoldable pub cycle_theme : Bool → ThemeState → ThemeState
unfolding effect
cycle_theme prefers_dark s = effect prefers_dark (record s { theme = next_theme s.theme })

-- The listener of the media query, which is there in the theme "auto" only.
unfoldable pub on_change : Bool → ThemeState → ThemeState
on_change prefers_dark s = if str_eq s.theme "auto" then apply_theme prefers_dark "auto" s else s

abbrev pub run : List Event → Bool → ThemeState → ThemeState
run [] prefers_dark s = s
run (click ∷ es) prefers_dark s = run es prefers_dark (cycle_theme prefers_dark s)
run (system_change prefers_dark ∷ es) old s = run es prefers_dark (on_change prefers_dark s)

unfoldable pub label : String → String
label theme =
    if str_eq theme "light" then "Light" else if str_eq theme "dark" then "Dark" else "Auto"
