-- ===== src/Website/Document.antt =====
-- The guides under archive/website/src/pages/docs, as what their elements hold; styles are left out.
-- A `pre` block holds its text as the source has it between the tags: what JSX makes of its line
-- breaks is not modelled.
use Prim.Native.String.{String}
use waddle_perf.Common.{ℕ, List, [], ◌∷◌, ◌++◌, Option, none, some}

pub data Inline : Type 0 where
  text strong code : String → Inline
  link : (href : String) (label : String) → Inline

-- `pre` is `<pre><code>…</code></pre>`, and `code_block` the component CodeBlock without line
-- numbers; `card` is a link with a heading and a text in it.
pub data Block : Type 0 where
  heading : (level : ℕ) → String → Block
  paragraph crumbs : List Inline → Block
  bullets numbers : List (List Inline) → Block
  table : List (List String) → Block
  pre : String → Block
  code_block : (title : String) (language : String) (code : String) → Block
  summary : String → Block
  card : (href : String) (title : String) (description : String) → Block

pub record Section : Type 0 where
  pub id : Option String
  pub blocks : List Block

-- The links of a guide, in the order of the page, and the names that a link can lead to.
abbrev pub inline_links : List Inline → List String
inline_links [] = []
inline_links (link href label ∷ is) = href ∷ inline_links is
inline_links (text s ∷ is) = inline_links is
inline_links (strong s ∷ is) = inline_links is
inline_links (code s ∷ is) = inline_links is

abbrev pub item_links : List (List Inline) → List String
item_links [] = []
item_links (i ∷ is) = inline_links i ++ item_links is

abbrev pub block_links : Block → List String
block_links (paragraph is) = inline_links is
block_links (crumbs is) = inline_links is
block_links (bullets items) = item_links items
block_links (numbers items) = item_links items
block_links (card href title description) = href ∷ []
block_links (heading level s) = []
block_links (table rows) = []
block_links (pre s) = []
block_links (code_block title language s) = []
block_links (summary s) = []

abbrev pub all_links : List Block → List String
all_links [] = []
all_links (b ∷ bs) = block_links b ++ all_links bs

unfoldable pub guide_links : List Section → List String
guide_links [] = []
guide_links (s ∷ ss) = all_links s.blocks ++ guide_links ss

abbrev pub named : Option String → List String → List String
named none names = names
named (some name) names = name ∷ names

unfoldable pub guide_ids : List Section → List String
guide_ids [] = []
guide_ids (s ∷ ss) = named s.id (guide_ids ss)
