-- ===== src/Website/Guides/Usage.antt =====
-- The page archive/website/src/pages/docs/usage.tsx.
use waddle_perf.Common.{List, [], ◌∷◌, none}
use waddle_perf.Website.Document.{
  Section, heading, paragraph, bullets, pre, text, strong, code, link,
}

unfoldable pub head : Section
head = record {
  id = none;
  blocks = paragraph (link "/docs" "← Back to Documentation" ∷ []) ∷ heading 1 "🚀 Usage Guide" ∷ [];
}

unfoldable pub body : Section
body = record {
  id = none;
  blocks =
      heading 2 "Getting Started with WaddlePerf"
      ∷ paragraph (
          text
            "WaddlePerf provides comprehensive network performance testing with multiple testing modes and detailed analytics."
          ∷ [])
      ∷ heading 3 "🎯 Basic Testing"
      ∷ paragraph (text "Run a single performance test:" ∷ [])
      ∷ pre "waddleperf run --server your-server:8080"
      ∷ heading 3 "📊 System Tray Mode"
      ∷ paragraph (text "Continuous monitoring with system tray integration:" ∷ [])
      ∷ pre "waddleperf tray --server your-server:8080 --autostart --interval 3600"
      ∷ heading 3 "🔧 Configuration Options"
      ∷ bullets (
          (strong "--server" ∷ text ": WaddlePerf server address" ∷ [])
          ∷ (strong "--verbose" ∷ text ": Enable detailed logging" ∷ [])
          ∷ (strong "--config" ∷ text ": Specify configuration file" ∷ [])
          ∷ (strong "--interval" ∷ text ": Test interval in seconds" ∷ [])
          ∷ (strong "--log-file" ∷ text ": Log file location" ∷ [])
          ∷ [])
      ∷ heading 3 "📈 Test Types"
      ∷ bullets (
          (strong "Speed Test" ∷ text ": Upload/download bandwidth testing" ∷ [])
          ∷ (strong "Latency Test" ∷ text ": Round-trip time measurements" ∷ [])
          ∷ (strong "HTTP Trace" ∷ text ": Detailed HTTP performance analysis" ∷ [])
          ∷ (strong "DNS Resolution" ∷ text ": DNS lookup time testing" ∷ [])
          ∷ (strong "UDP Ping" ∷ text ": UDP connectivity and response time" ∷ [])
          ∷ [])
      ∷ heading 3 "🏗\u{fe0f} AutoPerf Mode"
      ∷ paragraph (text "Automated tiered testing based on performance thresholds:" ∷ [])
      ∷ bullets (
          (strong "Tier 1" ∷ text ": Basic continuous monitoring (every X minutes)" ∷ [])
          ∷ (strong "Tier 2" ∷ text ": Enhanced testing when Tier 1 thresholds exceeded" ∷ [])
          ∷ (strong "Tier 3"
              ∷ text ": Comprehensive diagnostics when Tier 2 thresholds exceeded"
              ∷ [])
          ∷ [])
      ∷ heading 3 "📋 System Information"
      ∷ paragraph (text "View detailed system and network information:" ∷ [])
      ∷ pre "waddleperf info"
      ∷ heading 3 "⚙\u{fe0f} Configuration File"
      ∷ paragraph (text "Create " ∷ code "~/.waddleperf.yaml" ∷ text " with your settings:" ∷ [])
      ∷ pre
          "server: \"your-server:8080\"\nverbose: true\ninterval: 3600\nautostart: true\nlog-file: \"/var/log/waddleperf.log\""
      ∷ paragraph (
          strong "💡 Pro Tip:"
          ∷ text
              " Use system tray mode for continuous monitoring while maintaining normal system usage."
          ∷ [])
      ∷ [];
}

unfoldable pub guide : List Section
unfolding head body
guide = head ∷ body ∷ []
