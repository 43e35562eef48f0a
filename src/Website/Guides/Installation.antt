-- ===== src/Website/Guides/Installation.antt =====
-- The page archive/website/src/pages/docs/installation.tsx.
pub mod Setup
pub mod Operation
use waddle_perf.Common.{List, [], ◌∷◌, none, some}
use waddle_perf.Website.Document.{Section, heading, paragraph, crumbs, text, link}
use waddle_perf.Website.Guides.Installation.Setup.{
  prerequisites, docker, binary, source, thin_client,
}
use waddle_perf.Website.Guides.Installation.Operation.{
  configuration, verification, troubleshooting, next_steps,
}

unfoldable pub head : Section
head = record {
  id = none;
  blocks =
      crumbs (link "/" "Home" ∷ link "/docs" "Documentation" ∷ text "Installation" ∷ [])
      ∷ heading 1 "Installation Guide"
      ∷ paragraph
          (text "Get WaddlePerf up and running in minutes with multiple installation options" ∷ [])
      ∷ [];
}

unfoldable pub quick_navigation : Section
quick_navigation = record {
  id = none;
  blocks =
      heading 2 "Quick Navigation"
      ∷ paragraph (link "#prerequisites" "Prerequisites" ∷ [])
      ∷ paragraph (link "#docker" "Docker Install" ∷ [])
      ∷ paragraph (link "#binary" "Binary Install" ∷ [])
      ∷ paragraph (link "#source" "Build from Source" ∷ [])
      ∷ paragraph (link "#configuration" "Configuration" ∷ [])
      ∷ paragraph (link "#verification" "Verification" ∷ [])
      ∷ paragraph (link "#troubleshooting" "Troubleshooting" ∷ [])
      ∷ paragraph (link "#next-steps" "Next Steps" ∷ [])
      ∷ [];
}

unfoldable pub foot : Section
foot = record {
  id = none;
  blocks =
      paragraph (link "/docs" "← Back to Documentation" ∷ [])
      ∷ paragraph (link "/docs/usage" "Next: Usage Guide →" ∷ [])
      ∷ [];
}

unfoldable pub guide : List Section
unfolding head quick_navigation prerequisites docker binary source thin_client configuration
    verification troubleshooting next_steps foot
guide =
    head ∷ quick_navigation ∷ prerequisites ∷ docker ∷ binary ∷ source ∷ thin_client ∷ configuration
    ∷ verification ∷ troubleshooting ∷ next_steps ∷ foot ∷ []
