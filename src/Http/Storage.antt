-- ===== src/Http/Storage.antt =====
-- `localStorage`: a text, or nothing, for each key.
use Prim.Native.String.{String}
use text.Mathlib.Text.{◌==◌ as str_eq}
use waddle_perf.Common.{Bool, false, not, if◌then◌else◌, Option, none, some}

abbrev pub LocalStorage : Type 0
LocalStorage = String → Option String

abbrev pub set_item : String → String → LocalStorage → LocalStorage
set_item key value st k = if str_eq k key then some value else st k

abbrev pub remove_item : String → LocalStorage → LocalStorage
remove_item key st k = if str_eq k key then none else st k

abbrev pub empty : LocalStorage
empty k = none

-- Whether what `getItem` returned counts as true: it is there and is not the empty text.
abbrev pub truthy : Option String → Bool
truthy none = false
truthy (some s) = not (str_eq s "")

-- The text that an `undefined` field becomes when it is stored or put into a template.
abbrev pub text_of : Option String → String
text_of none = "undefined"
text_of (some s) = s
