-- ===== src/Theme/Laws.antt =====
-- The two front ends treat a theme alike.
use Prim.Native.String.{String}
use text.Mathlib.Text.{◌==◌ as str_eq}
use waddle_perf.Common.{
  List, [], ◌∷◌, Bool, false, if◌then◌else◌, Option, none, some, ◌≡◌, refl, sym, ap, ◌∙◌, inl, inr,
  Bool-cases, arith, if_intro,
}
use waddle_perf.Http.Storage.{LocalStorage, set_item, truthy, text_of}
use waddle_perf.Theme.{ThemeState, saved_theme, effective_theme, Event, click, system_change}
use waddle_perf.Theme.Toggle
use waddle_perf.Theme.Provider

next_theme-eq : (t : String) → Toggle.next_theme t ≡ Provider.next_theme t
unfolding Toggle.next_theme Provider.next_theme
next_theme-eq t = elim (Bool-cases (str_eq t "light")) [
  | inl e ↦ rw e refl
  | inr e ↦ elim (Bool-cases (str_eq t "dark")) [
    | inl f ↦ rw (e, f) refl
    | inr f ↦ elim (Bool-cases (str_eq t "auto")) [
      | inl g ↦ rw (e, f, g) refl
      | inr g ↦ rw (e, f, g) refl
    ]
  ]
]

-- The same theme, and the same attribute of the page.
abbrev pub Agree : ThemeState → ThemeState → Type 0
Agree s t = (s.theme ≡ t.theme) × (s.attribute ≡ t.attribute)

cycle_theme-Agree :
    (p : Bool) (s t : ThemeState)
    → Agree s t
    → Agree (Toggle.cycle_theme p s) (Provider.cycle_theme p t)
unfolding Toggle.cycle_theme Toggle.effect Provider.cycle_theme Provider.set_theme
cycle_theme-Agree p s t (same, shown) =
    let next = ap Toggle.next_theme same ∙ next_theme-eq t.theme in
    (next, ap (effective_theme p) next)

on_change-Agree :
    (p : Bool) (s t : ThemeState)
    → Agree s t
    → Agree (Toggle.on_change p s) (Provider.on_change p t)
unfolding Toggle.on_change Provider.on_change effective_theme
on_change-Agree p s t (same, shown) =
    let e = ap (λ x. str_eq x "auto") same in (ground (arith, same, e), ground (arith, shown, e))

run-Agree_from :
    (es : List Event) (p : Bool) (s t : ThemeState)
    → Agree s t
    → Agree (Toggle.run es p s) (Provider.run es p t)
run-Agree_from [] p s t h = h
run-Agree_from (click ∷ es) p s t h =
    run-Agree_from es p (Toggle.cycle_theme p s) (Provider.cycle_theme p t)
      (cycle_theme-Agree p s t h)
run-Agree_from (system_change q ∷ es) p s t h =
    run-Agree_from es q (Toggle.on_change q s) (Provider.on_change q t) (on_change-Agree q s t h)

-- From any storage, also one with a text that is no theme, and through any clicks and changes of
-- the system's preference, the two front ends are in the same theme and give the page the same
-- attribute.
pub run-Agree :
    (st : LocalStorage) (p : Bool) (es : List Event)
    → Agree (Toggle.run es p (Toggle.mount p st)) (Provider.run es p (Provider.mount p st))
unfolding Toggle.mount Toggle.effect Provider.mount
run-Agree st p es = run-Agree_from es p (Toggle.mount p st) (Provider.mount p st) (refl, refl)

-- A reload of the page would find the theme that it shows.
abbrev pub IsSaved : ThemeState → Type 0
IsSaved s = saved_theme s.storage ≡ s.theme

saved_theme-set :
    (theme : String) (st : LocalStorage)
    → str_eq theme "" ≡ false
    → saved_theme (set_item "theme" theme st) ≡ theme
saved_theme-set theme st e = rw e refl

text-full : (o : Option String) → str_eq (if truthy o then text_of o else "auto") "" ≡ false
text-full none = refl
text-full (some s) = elim (Bool-cases (str_eq s "")) [ inl e ↦ rw e refl | inr e ↦ rw e e ]

next_theme-full : (t : String) → str_eq (Toggle.next_theme t) "" ≡ false
unfolding Toggle.next_theme
next_theme-full t =
    let full = λ (x : String). str_eq x "" ≡ false in
    if_intro full (str_eq t "light") "dark" _ refl
      (if_intro full (str_eq t "dark") "auto" "light" refl refl)

run-IsSaved_toggle :
    (es : List Event) (p : Bool) (s : ThemeState) → IsSaved s → IsSaved (Toggle.run es p s)
unfolding Toggle.cycle_theme Toggle.effect Toggle.on_change
run-IsSaved_toggle [] p s h = h
run-IsSaved_toggle (click ∷ es) p s h =
    run-IsSaved_toggle es p (Toggle.cycle_theme p s)
      (saved_theme-set (Toggle.next_theme s.theme) s.storage (next_theme-full s.theme))
run-IsSaved_toggle (system_change q ∷ es) p s h =
    run-IsSaved_toggle es q (Toggle.on_change q s)
      (if_intro IsSaved (str_eq s.theme "auto") _ _ h h)

run-IsSaved_provider :
    (es : List Event) (p : Bool) (s : ThemeState) → IsSaved s → IsSaved (Provider.run es p s)
unfolding Provider.cycle_theme Provider.set_theme Provider.on_change
run-IsSaved_provider [] p s h = h
run-IsSaved_provider (click ∷ es) p s h = run-IsSaved_provider es p (Provider.cycle_theme p s) (
    saved_theme-set (Provider.next_theme s.theme) s.storage
      (ap (λ x. str_eq x "") (sym (next_theme-eq s.theme)) ∙ next_theme-full s.theme))
run-IsSaved_provider (system_change q ∷ es) p s h =
    run-IsSaved_provider es q (Provider.on_change q s)
      (if_intro IsSaved (str_eq s.theme "auto") _ _ h h)

-- In both front ends, after any clicks and changes of the system's preference, a reload of the page
-- finds the theme that was shown.
run-IsSaved :
    (st : LocalStorage) (p : Bool) (es : List Event)
    → IsSaved (Toggle.run es p (Toggle.mount p st))
      × IsSaved (Provider.run es p (Provider.mount p st))
unfolding Toggle.mount Toggle.effect Provider.mount
run-IsSaved st p es = (
  run-IsSaved_toggle es p (Toggle.mount p st)
      (saved_theme-set (saved_theme st) st (text-full (st "theme"))),
  run-IsSaved_provider es p (Provider.mount p st) refl,
)
