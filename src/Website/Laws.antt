-- ===== src/Website/Laws.antt =====
-- What archive/website/src/components/CodeBlock.tsx shows of its code.
use Prim.Native.String.{String}
use text.Mathlib.Text.{◌==◌ as str_eq}
use waddle_perf.Common.{
  ℕ, ◌+◌, List, [], ◌∷◌, map, Bool, true, false, Option, ◌≡◌, refl, ap, ◌∙◌, arith, Bool-cases, inl,
  inr, if_intro,
}
use waddle_perf.Regex.{Text}
use waddle_perf.Js.Strings.{trim, split, starts_with}
use waddle_perf.Js.Splitting.{join, join-split}
use waddle_perf.Website.{
  CodeBlockState, Line, prompt, comment, plain, without_first, show_line, numbered, code_block,
}

-- The text that a line shows.
abbrev pub text_of : Line → Text
text_of (prompt rest) = b'$' ∷ rest
text_of (comment line) = line
text_of (plain line) = line

prompt-text : (line : Text) → starts_with line (b'$' ∷ []) ≡ true → b'$' ∷ without_first line ≡ line
unfolding starts_with
prompt-text [] h = cc
prompt-text (c ∷ s) h = let same : b'$' ≡ c = ground arith in ap (λ d. d ∷ s) same

text_of-show_line : (b : Bool) (line : Text) → text_of (show_line b line) ≡ line
unfolding show_line
text_of-show_line false line = refl
text_of-show_line true line = elim (Bool-cases (starts_with line (b'$' ∷ []))) [
  | inl e ↦ rw e (prompt-text line e)
  | inr e ↦ rw e (if_intro (λ l. text_of l ≡ line) (starts_with line (b'#' ∷ [])) _ _ refl refl)
]

-- The texts of the numbered lines, and the numbers.
abbrev pub texts : List (Option ℕ × Line) → List Text
texts [] = []
texts (l ∷ ls) = text_of l.1 ∷ texts ls

texts-numbered :
    (show b : Bool) (i : ℕ) (ts : List Text) → texts (numbered show i (map (show_line b) ts)) ≡ ts
texts-numbered show b i [] = refl
texts-numbered show b i (t ∷ ts) =
    ap (λ u. u ∷ texts (numbered show (i + 1) (map (show_line b) ts))) (text_of-show_line b t)
    ∙ ap (λ us. t ∷ us) (texts-numbered show b (i + 1) ts)

-- Whatever the code, its language and the line numbers: the lines that a block shows, joined by line
-- breaks, are the code without the space around it.
pub join-code_block :
    (code : Text) (language : String) (title : Option String) (show_line_numbers : Bool)
    (s : CodeBlockState)
    → join b'\n' (texts (code_block code language title show_line_numbers s).lines) ≡ trim code
unfolding code_block
join-code_block code language title show_line_numbers s =
    ap (join b'\n')
      (texts-numbered show_line_numbers (str_eq language "bash") 0 (split b'\n' (trim code)))
    ∙ join-split b'\n' (trim code)
