-- ===== src/Tests/Website.antt =====
-- Runs of the archived web site, archive/website/src, at fixed inputs.
use Prim.Native.String.{String}
use waddle_perf.Common.{List, [], ◌∷◌, Bool, true, false, if◌then◌else◌, none, ◌≡◌, refl}
use waddle_perf.Js.Strings.{codes, trim}
use waddle_perf.Js.Splitting.{join}
use waddle_perf.Website.{CodeBlockState, code_block, sections, of_category}
use waddle_perf.Website.Laws.{texts, join-code_block}
use waddle_perf.Website.Document.{guide_links, guide_ids}
use waddle_perf.Website.Home.{navigation_view}
use waddle_perf.Website.Pricing.{pricing_plans}
use waddle_perf.Website.Docs.{docs_config, docs_page, cards}
use waddle_perf.Website.Cards.{count, docs_of}
use waddle_perf.Website.Guides.Usage
use waddle_perf.Website.Site.{
  SitePage, home, docs, usage, home_links, docs_links, links_of, Target, nowhere, target_of,
}

-- A block of code as it is before its button is clicked.
abbrev fresh : CodeBlockState
fresh = record { copied = false; clipboard = none; timers = 0 }

join-code_block_example :
    join b'\n' (texts (code_block (codes " $ ls\n# all ") "bash" none true fresh).lines)
    ≡ trim (codes " $ ls\n# all ")
join-code_block_example = join-code_block (codes " $ ls\n# all ") "bash" none true fresh

abbrev is_nowhere : Target → Bool
is_nowhere nowhere = true
is_nowhere _ = false

abbrev keep_dead : SitePage → List String → List String
keep_dead p [] = []
keep_dead p (href ∷ hs) =
    let rest = keep_dead p hs in if is_nowhere (target_of p href) then href ∷ rest else rest

-- The links of a page that lead nowhere, in the order of the page, with its menu closed.
abbrev dead_links : SitePage → List String
dead_links p = keep_dead p (links_of p false)

dead_links-home : dead_links home ≡ "#docs" ∷ "/docs/security" ∷ "/privacy" ∷ "/terms" ∷ []
unfolding home_links target_of navigation_view pricing_plans
dead_links-home = refl

dead_links-docs :
    dead_links docs
    ≡ "/docs/configuration" ∷ "/docs/public-regions" ∷ "/docs/api-reference" ∷ "/docs/release-notes"
      ∷ []
unfolding docs_links target_of docs_page sections of_category
dead_links-docs = refl

dead_links-usage : dead_links usage ≡ []
unfolding target_of guide_links guide_ids Usage.guide
dead_links-usage = refl

all_cards : count (λ d. true) (docs_of (cards (docs_page docs_config))) ≡ 9
unfolding docs_page sections of_category
all_cards = refl
