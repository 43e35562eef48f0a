-- ===== src/Validation/Characters.antt =====
-- The code units of a host name, and that neither `trim` nor the removal of control characters
-- touches them.
use waddle_perf.Common.{
  ℕ, ◌≡◌, refl, List, [], ◌∷◌, ◌++◌, Bool, false, arith, reverse, Bool-cases, inl, inr, All,
  All-append, All-map, All-reverse,
}
use mathlib.Core.List.{reverse-cons, reverse-reverse}
use waddle_perf.Regex.{Text, in_class}
use waddle_perf.Js.Strings.{is_space, is_empty, trim_start, trim, remove, split}
use waddle_perf.Validation.Patterns.{inner}
use waddle_perf.Validation.Hostname.{IsIn, IsLabel, IsHostname}
use waddle_perf.Js.Splitting.{tail_text, join, join-split}

-- `[a-zA-Z0-9.-]`
abbrev pub name_class : waddle_perf.Regex.Class
name_class = (b'.', b'.') ∷ inner

abbrev pub IsNameChar : ℕ → Type 0
IsNameChar c = IsIn name_class c

label-chars : (l : Text) → IsLabel l → All IsNameChar l
label-chars l h = All-map (IsIn inner) IsNameChar (λ c i. ground arith) l h.chars

tail_text-chars : (ps : List Text) → All IsLabel ps → All IsNameChar (tail_text b'.' ps)
tail_text-chars [] h = tt
tail_text-chars (p ∷ ps) (l, h) =
    (refl, All-append IsNameChar p (tail_text b'.' ps) (label-chars p l) (tail_text-chars ps h))

join-chars : (ps : List Text) → All IsLabel ps → All IsNameChar (join b'.' ps)
join-chars [] h = tt
join-chars (p ∷ ps) (l, h) =
    All-append IsNameChar p (tail_text b'.' ps) (label-chars p l) (tail_text-chars ps h)

pub IsHostname-chars : (w : Text) → IsHostname w → All IsNameChar w
IsHostname-chars w h = rw (join-split b'.' w) at (join-chars (split b'.' w) h)

abbrev pub IsNotSpace : ℕ → Type 0
IsNotSpace c = is_space c ≡ false

pub name_char-IsNotSpace : (c : ℕ) → IsNameChar c → IsNotSpace c
unfolding is_space
name_char-IsNotSpace c h = ground arith

trim_start_id : (s : Text) → All IsNotSpace s → trim_start s ≡ s
unfolding trim_start
trim_start_id [] h = refl
trim_start_id (c ∷ s) (n, h) = rw n

pub trim_id : (s : Text) → All IsNotSpace s → trim s ≡ s
unfolding trim
trim_id s h =
    rw
      (trim_start_id s h, trim_start_id (reverse s) (All-reverse IsNotSpace s h), reverse-reverse s)

pub remove_id : (p : ℕ → Bool) (s : Text) → All (λ c. p c ≡ false) s → remove p s ≡ s
unfolding remove
remove_id p [] h = refl
remove_id p (c ∷ s) (n, h) = rw (n, remove_id p s h)

pub All-remove : (p : ℕ → Bool) (s : Text) → All (λ c. p c ≡ false) (remove p s)
unfolding remove
All-remove p [] = tt
All-remove p (c ∷ s) = elim (Bool-cases (p c)) [
  | inl e ↦ rw e (All-remove p s)
  | inr e ↦ rw e (e, All-remove p s)
]

-- A text that holds a code unit which is no space is not blank.
trim_start-snoc : (x : Text) (c : ℕ) → IsNotSpace c → is_empty (trim_start (x ++ c ∷ [])) ≡ false
unfolding trim_start
trim_start-snoc [] c n = rw n
trim_start-snoc (d ∷ x) c n = ground (arith, trim_start-snoc x c n)

is_empty-reverse : (s : Text) → is_empty s ≡ false → is_empty (reverse s) ≡ false
is_empty-reverse [] h = h
is_empty-reverse (c ∷ s) h = rw (reverse-cons c s) (snoc (reverse s))
  where
    snoc : (t : Text) → is_empty (t ++ c ∷ []) ≡ false
    snoc [] = refl
    snoc (d ∷ t) = refl

pub trim-ne-nil : (c : ℕ) (s : Text) → IsNotSpace c → is_empty (trim (c ∷ s)) ≡ false
unfolding trim trim_start
trim-ne-nil c s n = rw (n, reverse-cons c s) (is_empty-reverse _ (trim_start-snoc (reverse s) c n))
