-- ===== src/Website/Guides/Installation/Operation.antt =====
-- The later sections of archive/website/src/pages/docs/installation.tsx.
use waddle_perf.Common.{[], ◌∷◌, some}
use waddle_perf.Website.Document.{
  Section, heading, paragraph, bullets, code_block, summary, card, text, strong, code, link,
}

unfoldable pub configuration : Section
configuration = record {
  id = some "configuration";
  blocks =
      heading 2 "Configuration"
      ∷ heading 3 "Environment Variables"
      ∷ heading 4 "Client Configuration"
      ∷ code_block "Terminal" "bash"
          "export WADDLEPERF_SERVER=server.example.com:8080\nexport WADDLEPERF_LOG_LEVEL=info\nexport WADDLEPERF_INTERVAL=3600\nexport WADDLEPERF_AUTOSTART=true"
      ∷ heading 4 "Server Configuration"
      ∷ code_block "Terminal" "bash"
          "export LISTEN_PORT=80\nexport SSL_PORT=443\nexport IPERF_PORT=5201\nexport UDP_PORT=2000\nexport ENABLE_GEOIP=true"
      ∷ heading 3 "Configuration Files"
      ∷ heading 4 "Go Client Configuration (~/.waddleperf.yaml)"
      ∷ code_block "~/.waddleperf.yaml" "yaml"
          "server: server.example.com:8080\ninterval: 3600\nautostart: true\nlog-file: /var/log/waddleperf.log\nverbose: false"
      ∷ heading 4 "Docker Configuration (/client/vars/base.yml)"
      ∷ code_block "/client/vars/base.yml" "yaml"
          "TARGET_SERVER: server.example.com\nTEST_INTERVAL: 3600\nS3_BUCKET: waddleperf-results\nS3_ENDPOINT: s3.amazonaws.com"
      ∷ [];
}

unfoldable pub verification : Section
verification = record {
  id = some "verification";
  blocks =
      heading 2 "Verification"
      ∷ paragraph (text "Verify your installation is working correctly." ∷ [])
      ∷ heading 3 "Test Commands"
      ∷ code_block "Terminal" "bash"
          "# Go Client\nwaddleperf info\nwaddleperf run -s server.example.com\n\n# Docker\ndocker exec waddleperf-client python3 /app/bins/getSysInfo.py\n\n# Check logs\ndocker logs waddleperf-client\ndocker logs waddleperf-server"
      ∷ heading 3 "Health Checks"
      ∷ bullets (
          (strong "Client Web UI:"
            ∷ text " "
            ∷ link "http://localhost:8080" "http://localhost:8080"
            ∷ [])
          ∷ (strong "Server Status:" ∷ text " " ∷ code "http://server-ip/health" ∷ [])
          ∷ (strong "iperf3 Test:" ∷ text " " ∷ code "iperf3 -c server-ip -p 5201" ∷ [])
          ∷ [])
      ∷ [];
}

unfoldable pub troubleshooting : Section
troubleshooting = record {
  id = some "troubleshooting";
  blocks =
      heading 2 "Troubleshooting"
      ∷ heading 3 "Common Issues"
      ∷ summary "Permission Denied Errors"
      ∷ code_block "Terminal" "bash"
          "# Fix permissions\nsudo chown -R $(whoami):$(whoami) /opt/waddleperf\nchmod +x /usr/local/bin/waddleperf"
      ∷ summary "Port Already in Use"
      ∷ code_block "Terminal" "bash"
          "# Check what's using the port\nsudo lsof -i :8080\nsudo netstat -tulpn | grep 8080\n\n# Kill the process or change port\ndocker run -p 8081:8080 ..."
      ∷ summary "System Tray Not Working (Linux)"
      ∷ code_block "Terminal" "bash"
          "# Install required libraries\nsudo apt-get install libayatana-appindicator3-dev libgtk-3-dev\n\n# Or build without system tray\ngo build -tags nosystray -o waddleperf ./cmd/waddleperf"
      ∷ summary "Python Module Errors"
      ∷ code_block "Terminal" "bash"
          "# Create virtual environment\npython3 -m venv venv\nsource venv/bin/activate\n\n# Install requirements\npip install -r requirements.txt"
      ∷ [];
}

unfoldable pub next_steps : Section
next_steps = record {
  id = some "next-steps";
  blocks =
      heading 2 "Next Steps"
      ∷ card "/docs/usage" "Usage Guide" "Learn how to use WaddlePerf for network testing"
      ∷ card "/docs/autoperf" "AutoPerf Mode" "Set up continuous monitoring with alerts"
      ∷ card "/docs/architecture" "Architecture" "Understand WaddlePerf's system design"
      ∷ card "https://github.com/penguintechinc/WaddlePerf" "GitHub Repository"
          "View source code and contribute"
      ∷ [];
}
