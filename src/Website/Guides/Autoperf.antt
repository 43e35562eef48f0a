-- ===== src/Website/Guides/Autoperf.antt =====
-- The page archive/website/src/pages/docs/autoperf.tsx.
use waddle_perf.Common.{List, [], ◌∷◌, none}
use waddle_perf.Website.Document.{Section, heading, paragraph, bullets, pre, text, strong, link}

unfoldable pub head : Section
head = record {
  id = none;
  blocks =
      paragraph (link "/docs" "← Back to Documentation" ∷ []) ∷ heading 1 "🤖 AutoPerf Mode" ∷ [];
}

unfoldable pub body : Section
body = record {
  id = none;
  blocks =
      heading 2 "Automated Network Performance Monitoring"
      ∷ paragraph (
          text
            "AutoPerf provides intelligent, tiered performance testing that scales monitoring intensity based on network conditions."
          ∷ [])
      ∷ heading 3 "📊 How AutoPerf Works"
      ∷ paragraph (
          text
            "AutoPerf uses a three-tier approach to optimize monitoring resources while ensuring comprehensive coverage:"
          ∷ [])
      ∷ heading 4 "🟢 Tier 1 - Baseline Monitoring"
      ∷ bullets (
          (text "Runs basic connectivity tests every X minutes (configurable)" ∷ [])
          ∷ (text "Lightweight tests: ping, basic HTTP, DNS lookup" ∷ [])
          ∷ (text "Minimal system resource usage" ∷ [])
          ∷ (text "Establishes performance baseline" ∷ [])
          ∷ [])
      ∷ heading 4 "🟡 Tier 2 - Enhanced Testing"
      ∷ bullets (
          (text "Triggered when Tier 1 thresholds are exceeded" ∷ [])
          ∷ (text "More comprehensive tests: bandwidth, detailed latency" ∷ [])
          ∷ (text "Increased testing frequency" ∷ [])
          ∷ (text "Identifies performance degradation patterns" ∷ [])
          ∷ [])
      ∷ heading 4 "🔴 Tier 3 - Comprehensive Diagnostics"
      ∷ bullets (
          (text "Triggered when Tier 2 thresholds are exceeded" ∷ [])
          ∷ (text "Full diagnostic suite: traceroute, advanced HTTP traces" ∷ [])
          ∷ (text "Maximum testing detail and frequency" ∷ [])
          ∷ (text "Problem identification and root cause analysis" ∷ [])
          ∷ [])
      ∷ heading 3 "⚙\u{fe0f} Configuration"
      ∷ paragraph (text "Each tool must be configured with tier assignment and thresholds:" ∷ [])
      ∷ pre
          "# Example AutoPerf configuration\nautoperf:\n  tier1:\n    interval: 300  # 5 minutes\n    tools:\n      - ping\n      - dns\n    thresholds:\n      latency_ms: 100\n      packet_loss: 5\n      \n  tier2:\n    tools:\n      - speedtest\n      - http_trace\n    thresholds:\n      bandwidth_mbps: 10\n      response_time_ms: 1000\n      \n  tier3:\n    tools:\n      - traceroute\n      - comprehensive_http\n    thresholds:\n      critical_latency_ms: 500"
      ∷ heading 3 "📈 Benefits"
      ∷ bullets (
          (strong "Resource Efficiency" ∷ text ": Only runs intensive tests when needed" ∷ [])
          ∷ (strong "Early Detection"
              ∷ text ": Catches performance issues before they become critical"
              ∷ [])
          ∷ (strong "Scalable Monitoring"
              ∷ text ": Adapts testing intensity to network conditions"
              ∷ [])
          ∷ (strong "Comprehensive Coverage"
              ∷ text ": Full diagnostic capability when required"
              ∷ [])
          ∷ [])
      ∷ heading 3 "🎯 Use Cases"
      ∷ bullets (
          (strong "Enterprise Networks"
            ∷ text ": Monitor critical connections with minimal overhead"
            ∷ [])
          ∷ (strong "Remote Workers" ∷ text ": Ensure stable connectivity for productivity" ∷ [])
          ∷ (strong "Service Providers" ∷ text ": Proactive network quality assurance" ∷ [])
          ∷ (strong "DevOps Teams" ∷ text ": Continuous infrastructure monitoring" ∷ [])
          ∷ [])
      ∷ paragraph (
          strong "💡 Note:"
          ∷ text
              " AutoPerf requires tools to be properly configured with tier assignments and enabled status for optimal operation."
          ∷ [])
      ∷ [];
}

unfoldable pub guide : List Section
unfolding head body
guide = head ∷ body ∷ []
