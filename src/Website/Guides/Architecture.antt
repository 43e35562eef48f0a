-- ===== src/Website/Guides/Architecture.antt =====
-- The page archive/website/src/pages/docs/architecture.tsx.
use waddle_perf.Common.{List, [], ◌∷◌, none}
use waddle_perf.Website.Document.{Section, heading, paragraph, bullets, numbers, text, strong, link}

unfoldable pub head : Section
head = record {
  id = none;
  blocks =
      paragraph (link "/docs" "← Back to Documentation" ∷ [])
      ∷ heading 1 "🏗\u{fe0f} Architecture"
      ∷ [];
}

unfoldable pub body : Section
body = record {
  id = none;
  blocks =
      heading 2 "System Architecture Overview"
      ∷ paragraph (
          text
            "WaddlePerf follows a distributed client-server architecture optimized for scalable network performance testing."
          ∷ [])
      ∷ heading 3 "🏢 Core Components"
      ∷ heading 4 "🖥\u{fe0f} WaddlePerf Server"
      ∷ bullets (
          (strong "py4web Framework:" ∷ text " Modern Python web application" ∷ [])
          ∷ (strong "Docker Containerized:" ∷ text " Easy deployment and scaling" ∷ [])
          ∷ (strong "Multi-protocol Support:" ∷ text " HTTP, UDP, TCP, WebSocket" ∷ [])
          ∷ (strong "Database Integration:" ∷ text " Performance data storage and analytics" ∷ [])
          ∷ [])
      ∷ heading 4 "📱 Go Desktop Client"
      ∷ bullets (
          (strong "Cross-platform:" ∷ text " Windows, macOS, Linux" ∷ [])
          ∷ (strong "System Tray Integration:" ∷ text " Background monitoring" ∷ [])
          ∷ (strong "Resource Optimized:" ∷ text " Minimal CPU and memory usage" ∷ [])
          ∷ (strong "Connection Pooling:" ∷ text " Efficient network utilization" ∷ [])
          ∷ [])
      ∷ heading 4 "🐍 Python Client Tools"
      ∷ bullets (
          (strong "Async/Threading:" ∷ text " High-performance concurrent testing" ∷ [])
          ∷ (strong "Modular Design:" ∷ text " Independent testing tools" ∷ [])
          ∷ (strong "JSON Output:" ∷ text " Machine-readable results" ∷ [])
          ∷ (strong "CLI Interface:" ∷ text " Scriptable and automatable" ∷ [])
          ∷ [])
      ∷ heading 3 "🔧 Testing Tools"
      ∷ bullets (
          (strong "speedtest.py:" ∷ text " Bandwidth measurement (upload/download)" ∷ [])
          ∷ (strong "httptrace_async.py:" ∷ text " HTTP performance analysis" ∷ [])
          ∷ (strong "udpping_async.py:" ∷ text " UDP connectivity testing" ∷ [])
          ∷ (strong "resolverTime_async.py:" ∷ text " DNS resolution timing" ∷ [])
          ∷ [])
      ∷ heading 3 "📊 Data Flow"
      ∷ numbers (
          (strong "Test Execution:" ∷ text " Client initiates performance tests" ∷ [])
          ∷ (strong "Data Collection:" ∷ text " Metrics gathered during test execution" ∷ [])
          ∷ (strong "Result Transmission:" ∷ text " JSON results sent to server" ∷ [])
          ∷ (strong "Storage & Analytics:" ∷ text " Server processes and stores data" ∷ [])
          ∷ (strong "Visualization:" ∷ text " Web interface displays results and trends" ∷ [])
          ∷ [])
      ∷ heading 3 "🚀 Performance Optimizations"
      ∷ bullets (
          (strong "Async I/O:" ∷ text " Non-blocking network operations" ∷ [])
          ∷ (strong "Connection Reuse:" ∷ text " HTTP keep-alive and pooling" ∷ [])
          ∷ (strong "Concurrent Testing:" ∷ text " Parallel test execution" ∷ [])
          ∷ (strong "Resource Management:" ∷ text " Automatic cleanup and garbage collection" ∷ [])
          ∷ [])
      ∷ heading 3 "🔒 Security Features"
      ∷ bullets (
          (strong "TLS Encryption:" ∷ text " Secure data transmission" ∷ [])
          ∷ (strong "Token Authentication:" ∷ text " API access control" ∷ [])
          ∷ (strong "Input Validation:" ∷ text " Protection against injection attacks" ∷ [])
          ∷ (strong "Rate Limiting:" ∷ text " DDoS prevention" ∷ [])
          ∷ [])
      ∷ heading 3 "📈 Scalability"
      ∷ bullets (
          (strong "Horizontal Scaling:" ∷ text " Multiple server instances" ∷ [])
          ∷ (strong "Load Balancing:" ∷ text " Distribute client connections" ∷ [])
          ∷ (strong "Database Sharding:" ∷ text " Handle large datasets" ∷ [])
          ∷ (strong "CDN Integration:" ∷ text " Global performance testing" ∷ [])
          ∷ [])
      ∷ paragraph (
          strong "🏗\u{fe0f} Design Principle:"
          ∷ text
              " WaddlePerf prioritizes accuracy, efficiency, and ease of deployment while maintaining comprehensive testing capabilities."
          ∷ [])
      ∷ [];
}

unfoldable pub guide : List Section
unfolding head body
guide = head ∷ body ∷ []
