-- ===== src/Website/Site.antt =====
-- The archived web site as a whole: the pages that the files under archive/website/src/pages stand
-- for, the links on each, and where they lead.
use Prim.Native.String.{String, ◌++◌ as str_append}
use text.Mathlib.Text.{◌==◌ as str_eq, starts_with}
use waddle_perf.Common.{List, [], ◌∷◌, ◌++◌, map, Bool, if◌then◌else◌}
use waddle_perf.Website.Document.{Section, guide_links, guide_ids}
use waddle_perf.Website.Guides.Installation
use waddle_perf.Website.Guides.Usage
use waddle_perf.Website.Guides.Autoperf
use waddle_perf.Website.Guides.Architecture
use waddle_perf.Website.Guides.Contributing
use waddle_perf.Website.Home.{hrefs, navigation_view, menu_items, hero_buttons, call_to_action}
use waddle_perf.Website.Pricing.{Plan, pricing_plans, Column, footer_github, footer_columns}
use waddle_perf.Website.Docs.{Card, docs_config, docs_page, cards}

pub data SitePage : Type 0 where
  home docs installation usage autoperf architecture contributing : SitePage

abbrev pub site_pages : List SitePage
site_pages = home ∷ docs ∷ installation ∷ usage ∷ autoperf ∷ architecture ∷ contributing ∷ []

-- The path of a page is that of its file.
abbrev pub path_of : SitePage → String
path_of home = "/"
path_of docs = "/docs"
path_of installation = "/docs/installation"
path_of usage = "/docs/usage"
path_of autoperf = "/docs/autoperf"
path_of architecture = "/docs/architecture"
path_of contributing = "/docs/contributing"

abbrev pub plan_hrefs : List Plan → List String
plan_hrefs = map (λ p. p.href)

abbrev pub column_hrefs : List Column → List String
column_hrefs [] = []
column_hrefs (c ∷ cs) = hrefs c.items ++ column_hrefs cs

abbrev pub card_hrefs : List Card → List String
card_hrefs = map (λ c. c.href)

-- The links of the start page, from its top to its bottom, by whether its menu is open.
unfoldable pub home_links : Bool → List String
unfolding navigation_view pricing_plans
home_links is_open =
    let bar = navigation_view is_open in
    hrefs bar.desktop
    ++ (hrefs (menu_items bar.menu)
        ++ (hrefs hero_buttons
            ++ (plan_hrefs pricing_plans
                ++ (hrefs call_to_action ++ footer_github.href ∷ column_hrefs footer_columns))))

unfoldable pub docs_links : List String
unfolding docs_page
docs_links =
    let v = docs_page docs_config in
    v.home.href ∷ (hrefs v.quick ++ (card_hrefs (cards v) ++ hrefs v.help))

abbrev pub guide_of : SitePage → List Section
guide_of installation = Installation.guide
guide_of usage = Usage.guide
guide_of autoperf = Autoperf.guide
guide_of architecture = Architecture.guide
guide_of contributing = Contributing.guide
guide_of home = []
guide_of docs = []

abbrev pub links_of : SitePage → Bool → List String
links_of home is_open = home_links is_open
links_of docs is_open = docs_links
links_of p is_open = guide_links (guide_of p)

-- The names on a page that a link such as "#pricing" can lead to.
abbrev pub ids_of : SitePage → List String
ids_of home = "features" ∷ "pricing" ∷ []
ids_of docs = "getting-started" ∷ []
ids_of p = guide_ids (guide_of p)

pub data Target : Type 0 where
  outside : Target
  section : String → Target
  page : SitePage → Target
  nowhere : Target

abbrev pub find_section : String → List String → Target
find_section href [] = nowhere
find_section href (id ∷ ids) =
    let rest = find_section href ids in if str_eq href (str_append "#" id) then section id else rest

abbrev pub find_page : String → List SitePage → Target
find_page href [] = nowhere
find_page href (p ∷ ps) =
    let rest = find_page href ps in if str_eq href (path_of p) then page p else rest

-- Where the link `href` on the page `p` leads. A path without a page gives the error page.
unfoldable pub target_of : SitePage → String → Target
target_of p href =
    if starts_with href "#"
    then find_section href (ids_of p)
    else if starts_with href "/"
    then find_page href site_pages
    else outside
