-- ===== src/Pages.antt =====
-- What the pages of managerServer/frontend/src/pages share: the message of an error, and a text that
-- is shown where it is not empty.
use Prim.Native.String.{String}
use text.Mathlib.Text.{◌==◌ as str_eq}
use waddle_perf.Common.{
  false, if◌then◌else◌, Option, none, some, ◌≡◌, ap, ◌∙◌, Bool-cases, inl, inr,
}

-- `err.response?.data?.error || fallback`
abbrev pub error_text : String → Option String → String
error_text fallback none = fallback
error_text fallback (some e) = if str_eq e "" then fallback else e

-- `text && …`, of a text or nothing.
abbrev pub non_empty : Option String → Option String
non_empty none = none
non_empty (some t) = if str_eq t "" then none else some t

pub error_text-shown :
    (fallback : String) (e : Option String)
    → str_eq fallback "" ≡ false
    → str_eq (error_text fallback e) "" ≡ false
error_text-shown fallback none h = h
error_text-shown fallback (some e) h = elim (Bool-cases (str_eq e "")) [
  | inl t ↦ rw t h
  | inr f ↦ ap (λ b. str_eq (if b then fallback else e) "") f ∙ f
]
