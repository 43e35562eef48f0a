-- ===== src/Theme/Provider.antt =====
-- managerServer/frontend/src/contexts/ThemeContext.tsx, and `cycleTheme` of
-- managerServer/frontend/src/components/Navbar.tsx. `effectiveTheme` is the attribute: the second
-- effect copies it.
use Prim.Native.String.{String}
use text.Mathlib.Text.{◌==◌ as str_eq}
use waddle_perf.Common.{ℕ, zero, suc, ◌%◌, List, [], ◌∷◌, Bool, if◌then◌else◌, length}
use waddle_perf.Http.Storage.{LocalStorage, set_item}
use waddle_perf.Theme.{ThemeState, saved_theme, effective_theme, Event, click, system_change}

-- `updateEffectiveTheme`, and the effect of the attribute behind it.
abbrev pub update_effective_theme : Bool → ThemeState → ThemeState
update_effective_theme prefers_dark s = record s {
  attribute = effective_theme prefers_dark s.theme;
}

unfoldable pub mount : Bool → LocalStorage → ThemeState
mount prefers_dark st =
    update_effective_theme prefers_dark
      (record { theme = saved_theme st; attribute = "light"; storage = st })

unfoldable pub set_theme : Bool → String → ThemeState → ThemeState
set_theme prefers_dark new_theme s =
    update_effective_theme prefers_dark
      (record s { theme = new_theme; storage = set_item "theme" new_theme s.storage })

abbrev pub themes : List String
themes = "light" ∷ "dark" ∷ "auto" ∷ []

-- `themes.indexOf(theme) + 1`: an absent theme has the index -1.
abbrev pub index_from : ℕ → List String → String → ℕ
index_from n [] theme = 0
index_from n (t ∷ ts) theme = if str_eq theme t then suc n else index_from (suc n) ts theme

-- `themes[i]`, for an index in range.
abbrev pub theme_at : ℕ → List String → String
theme_at n [] = "undefined"
theme_at zero (t ∷ ts) = t
theme_at (suc n) (t ∷ ts) = theme_at n ts

unfoldable pub next_theme : String → String
next_theme theme = theme_at (index_from 0 themes theme % length themes) themes

unfoldable pub cycle_theme : Bool → ThemeState → ThemeState
unfolding set_theme
cycle_theme prefers_dark s = set_theme prefers_dark (next_theme s.theme) s

-- The listener of the media query.
unfoldable pub on_change : Bool → ThemeState → ThemeState
on_change prefers_dark s =
    if str_eq s.theme "auto" then update_effective_theme prefers_dark s else s

abbrev pub run : List Event → Bool → ThemeState → ThemeState
run [] prefers_dark s = s
run (click ∷ es) prefers_dark s = run es prefers_dark (cycle_theme prefers_dark s)
run (system_change prefers_dark ∷ es) old s = run es prefers_dark (on_change prefers_dark s)
