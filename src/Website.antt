-- ===== src/Website.antt =====
-- Of the archived web site: archive/website/src/components/CodeBlock.tsx, the menu of
-- archive/website/src/components/Navigation.tsx, and the sections of
-- archive/website/src/pages/docs.tsx. Styles and static text are left out.
pub mod Laws
pub mod Document
pub mod Guides
pub mod Home
pub mod Pricing
pub mod Docs
pub mod Site
pub mod Cards
use Prim.Native.String.{String}
use text.Mathlib.Text.{◌==◌ as str_eq}
use waddle_perf.Common.{
  ℕ, zero, suc, ◌+◌, ◌-◌, List, [], ◌∷◌, map, Bool, true, false, not, ◌==◌, if◌then◌else◌, Option,
  none, some,
}
use waddle_perf.Regex.{Text}
use waddle_perf.Js.Strings.{codes, trim, split, starts_with}

-- `timers` is the number of timeouts to come.
pub record CodeBlockState : Type 0 where
  pub copied : Bool
  pub clipboard : Option Text
  pub timers : ℕ

unfoldable pub handle_copy : Text → CodeBlockState → CodeBlockState
handle_copy code s = record { copied = true; clipboard = some code; timers = s.timers + 1 }

-- One of the timeouts.
unfoldable pub timeout : CodeBlockState → CodeBlockState
timeout s = if s.timers == 0 then s else record s { copied = false; timers = s.timers - 1 }

-- How a line is shown: with its dollar sign apart, as a comment, or as it is.
pub data Line : Type 0 where
  prompt : (rest : Text) → Line
  comment plain : Text → Line

abbrev pub without_first : Text → Text
without_first [] = []
without_first (c ∷ s) = s

unfoldable pub show_line : Bool → Text → Line
show_line is_bash line =
    if not is_bash
    then plain line
    else if starts_with line (b'$' ∷ [])
    then prompt (without_first line)
    else if starts_with line (b'#' ∷ [])
    then comment line
    else plain line

abbrev pub numbered : Bool → ℕ → List Line → List (Option ℕ × Line)
numbered show i [] = []
numbered show i (l ∷ ls) = (if show then some (i + 1) else none, l) ∷ numbered show (i + 1) ls

pub record CodeBlock : Type 0 where
  pub title : Option String
  pub button : String
  pub lines : List (Option ℕ × Line)

unfoldable pub code_block : Text → String → Option String → Bool → CodeBlockState → CodeBlock
code_block code language title show_line_numbers s = record {
  title = title;
  button = if s.copied then "Copied!" else "Copy";
  lines =
      numbered show_line_numbers 0
        (map (show_line (str_eq language "bash")) (split b'\n' (trim code)));
}

-- The menu of a small screen: its button, and a link in it.
unfoldable pub toggle_menu : Bool → Bool
toggle_menu is_open = not is_open

unfoldable pub follow_link : Bool → Bool
follow_link is_open = false

pub record Doc : Type 0 where
  pub slug : String
  pub title : String
  pub description : String
  pub icon : String
  pub category : String

abbrev pub keep_if : Bool → Doc → List Doc → List Doc
keep_if true d ds = d ∷ ds
keep_if false d ds = ds

-- `docs.filter(doc => doc.category === category)`
unfoldable pub of_category : String → List Doc → List Doc
of_category category [] = []
of_category category (d ∷ ds) = keep_if (str_eq d.category category) d (of_category category ds)

pub record Sections : Type 0 where
  pub getting_started : List Doc
  pub core_features : List Doc
  pub reference : List Doc

unfoldable pub sections : List Doc → Sections
sections docs = record {
  getting_started = of_category "getting-started" docs;
  core_features = of_category "core" docs;
  reference = of_category "reference" docs;
}
