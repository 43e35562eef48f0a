-- ===== src/Theme.antt =====
-- The themes of the two front ends: webClient/frontend/src/components/ThemeToggle.tsx in
-- Theme/Toggle, and managerServer/frontend/src/contexts/ThemeContext.tsx with the button of
-- managerServer/frontend/src/components/Navbar.tsx in Theme/Provider. A theme is whatever text is
-- stored: it is never checked. `prefers_dark` is what the browser's media query says.
pub mod Toggle
pub mod Provider
pub mod Laws
use Prim.Native.String.{String}
use text.Mathlib.Text.{◌==◌ as str_eq}
use waddle_perf.Common.{Bool, if◌then◌else◌}
use waddle_perf.Http.Storage.{LocalStorage, truthy, text_of}

-- A component and what it leaves outside: the storage, and the attribute "data-theme" of the page.
pub record ThemeState : Type 0 where
  pub theme : String
  pub attribute : String
  pub storage : LocalStorage

-- `saved || 'auto'`
abbrev pub saved_theme : LocalStorage → String
saved_theme st = if truthy (st "theme") then text_of (st "theme") else "auto"

unfoldable pub effective_theme : Bool → String → String
effective_theme prefers_dark theme =
    if str_eq theme "auto" then if prefers_dark then "dark" else "light" else theme

-- A click on the button, or a change of the system's preference.
pub data Event : Type 0 where
  click : Event
  system_change : Bool → Event
