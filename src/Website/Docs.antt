-- ===== src/Website/Docs.antt =====
-- The page archive/website/src/pages/docs.tsx: its documents, cards and other links.
use Prim.Native.String.{String, ◌++◌ as str_append}
use waddle_perf.Common.{List, [], ◌∷◌, ◌++◌, map}
use waddle_perf.Website.{Doc, sections}
use waddle_perf.Website.Home.{Item, item}

abbrev pub doc : String → String → String → String → String → Doc
doc slug title description icon category = record {
  slug = slug;
  title = title;
  description = description;
  icon = icon;
  category = category;
}

-- `docsConfig`, which `getStaticProps` passes to the page.
abbrev pub docs_config : List Doc
docs_config =
    doc "installation" "Installation"
      "Step-by-step instructions to install and set up WaddlePerf on your system" "🚀"
      "getting-started"
    ∷ doc "usage" "Usage Guide"
        "Learn how to use WaddlePerf for network performance testing and monitoring" "📖"
        "getting-started"
    ∷ doc "configuration" "Configuration"
        "Configure WaddlePerf for your specific environment and requirements" "⚙\u{fe0f}"
        "getting-started"
    ∷ doc "autoperf" "AutoPerf Mode"
        "Automated performance monitoring with tiered testing and intelligent alerts" "🤖" "core"
    ∷ doc "architecture" "Architecture"
        "Technical overview of WaddlePerf's system design and components" "🏗\u{fe0f}" "core"
    ∷ doc "public-regions" "Public Regions"
        "Global test regions and endpoints for worldwide performance testing" "🌍" "core"
    ∷ doc "api-reference" "API Reference"
        "Complete API documentation for integrating with WaddlePerf" "📡" "reference"
    ∷ doc "release-notes" "Release Notes"
        "Latest updates, features, and improvements in WaddlePerf releases" "📋" "reference"
    ∷ doc "contributing" "Contributing"
        "Guidelines for contributing to the WaddlePerf open-source project" "🤝" "reference"
    ∷ []

-- The card of a document, with what stands below its description.
pub record Card : Type 0 where
  pub doc : Doc
  pub href : String
  pub more : String

abbrev pub card : String → Doc → Card
card more d = record { doc = d; href = str_append "/docs/" d.slug; more = more }

abbrev pub breadcrumb : Item
breadcrumb = item "Home" "/"

abbrev pub quick_links : List Item
quick_links =
    item "Quick Start" "#getting-started"
    ∷ item "GitHub" "https://github.com/penguintechinc/WaddlePerf"
    ∷ item "Contribute" "/docs/contributing"
    ∷ []

abbrev pub help_links : List Item
help_links =
    item "Report an Issue" "https://github.com/penguintechinc/WaddlePerf/issues"
    ∷ item "Community Forum" "https://github.com/penguintechinc/WaddlePerf/discussions"
    ∷ []

pub record DocsView : Type 0 where
  pub home : Item
  pub quick : List Item
  pub getting_started : List Card
  pub core_features : List Card
  pub reference : List Card
  pub help : List Item

unfoldable pub docs_page : List Doc → DocsView
docs_page docs =
    let s = sections docs in
    record {
      home = breadcrumb;
      quick = quick_links;
      getting_started = map (card "Learn more") s.getting_started;
      core_features = map (card "Explore") s.core_features;
      reference = map (card "View details") s.reference;
      help = help_links;
    }

abbrev pub cards : DocsView → List Card
cards v = v.getting_started ++ (v.core_features ++ v.reference)
