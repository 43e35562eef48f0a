-- ===== src/Website/Guides/Installation/Setup.antt =====
-- The first sections of archive/website/src/pages/docs/installation.tsx.
use waddle_perf.Common.{[], ◌∷◌, some}
use waddle_perf.Website.Document.{
  Section, heading, paragraph, bullets, table, code_block, text, strong, code, link,
}

unfoldable pub prerequisites : Section
prerequisites = record {
  id = some "prerequisites";
  blocks =
      heading 2 "Prerequisites"
      ∷ heading 3 "System Requirements"
      ∷ table (
          ("Component" ∷ "Requirements" ∷ [])
          ∷ ("Operating System"
              ∷ "Linux (Ubuntu 20.04+, Debian 11+, RHEL 8+), Windows 10/11, macOS 10.15+" ∷ [])
          ∷ ("Memory" ∷ "Minimum 512MB RAM (1GB+ recommended)" ∷ [])
          ∷ ("Disk Space" ∷ "100MB for client, 500MB for server" ∷ [])
          ∷ ("Network" ∷ "Outbound connectivity to target servers" ∷ [])
          ∷ ("Software" ∷ "Python 3.9+ or Go 1.21+ (for building from source)" ∷ [])
          ∷ [])
      ∷ heading 3 "Network Ports"
      ∷ paragraph (strong "Important:" ∷ text " Ensure the following ports are accessible:" ∷ [])
      ∷ bullets (
          (text "HTTP: 80" ∷ [])
          ∷ (text "HTTPS: 443" ∷ [])
          ∷ (text "Web UI: 8080" ∷ [])
          ∷ (text "iperf3: 5201" ∷ [])
          ∷ (text "UDP Ping: 2000/udp" ∷ [])
          ∷ [])
      ∷ [];
}

unfoldable pub docker : Section
docker = record {
  id = some "docker";
  blocks =
      heading 2 "Docker Installation (Recommended)"
      ∷ paragraph
          (text "The fastest way to get started with WaddlePerf is using Docker containers." ∷ [])
      ∷ heading 3 "Full Stack with Docker Compose"
      ∷ code_block "Terminal" "bash"
          "# Clone the repository\ngit clone https://github.com/penguintechinc/WaddlePerf.git\ncd WaddlePerf\n\n# Start all services\ndocker-compose up -d\n\n# Check status\ndocker-compose ps\n\n# View logs\ndocker-compose logs -f"
      ∷ heading 3 "Individual Container Deployment"
      ∷ heading 4 "Deploy Client Container"
      ∷ code_block "Terminal" "bash"
          "docker run -d \\\n  --name waddleperf-client \\\n  -p 8080:8080 \\\n  -e TARGET_SERVER=your-server-address \\\n  ghcr.io/penguincloud/waddleperf-client:latest"
      ∷ heading 4 "Deploy Server Container"
      ∷ code_block "Terminal" "bash"
          "docker run -d \\\n  --name waddleperf-server \\\n  -p 80:80 -p 443:443 -p 5201:5201 -p 2000:2000/udp \\\n  ghcr.io/penguincloud/waddleperf-server:latest"
      ∷ paragraph (
          strong "Pro Tip:"
          ∷ text
              " Docker installation handles all dependencies automatically and provides consistent environments across platforms."
          ∷ [])
      ∷ [];
}

unfoldable pub binary : Section
binary = record {
  id = some "binary";
  blocks =
      heading 2 "Binary Installation"
      ∷ paragraph (
          text "Download pre-built binaries for your platform from "
          ∷ link "https://github.com/penguintechinc/WaddlePerf/releases" "GitHub Releases"
          ∷ [])
      ∷ heading 3 "Linux Installation"
      ∷ heading 4 "AMD64 Architecture"
      ∷ code_block "Terminal" "bash"
          "wget https://github.com/penguintechinc/WaddlePerf/releases/latest/download/waddleperf-linux-amd64.tar.gz\ntar xzf waddleperf-linux-amd64.tar.gz\nsudo mv waddleperf /usr/local/bin/\nsudo chmod +x /usr/local/bin/waddleperf"
      ∷ heading 4 "ARM64 Architecture"
      ∷ code_block "Terminal" "bash"
          "wget https://github.com/penguintechinc/WaddlePerf/releases/latest/download/waddleperf-linux-arm64.tar.gz\ntar xzf waddleperf-linux-arm64.tar.gz\nsudo mv waddleperf /usr/local/bin/\nsudo chmod +x /usr/local/bin/waddleperf"
      ∷ heading 3 "macOS Installation (Universal Binary)"
      ∷ code_block "Terminal" "bash"
          "wget https://github.com/penguintechinc/WaddlePerf/releases/latest/download/waddleperf-macos-universal.tar.gz\ntar xzf waddleperf-macos-universal.tar.gz\nsudo mv waddleperf /usr/local/bin/\nsudo chmod +x /usr/local/bin/waddleperf"
      ∷ heading 3 "Windows Installation"
      ∷ paragraph (text "Download and extract the appropriate ZIP file:" ∷ [])
      ∷ bullets (
          (code "waddleperf-windows-amd64.zip" ∷ text " for 64-bit systems" ∷ [])
          ∷ (code "waddleperf-windows-arm64.zip" ∷ text " for ARM systems" ∷ [])
          ∷ [])
      ∷ paragraph (text "Add the extracted directory to your PATH environment variable." ∷ [])
      ∷ [];
}

unfoldable pub source : Section
source = record {
  id = some "source";
  blocks =
      heading 2 "Building from Source"
      ∷ paragraph
          (text "Build WaddlePerf from source for custom configurations or development." ∷ [])
      ∷ heading 3 "Prerequisites for Building"
      ∷ heading 4 "Linux (Ubuntu/Debian)"
      ∷ code_block "Terminal" "bash"
          "# Install build dependencies\nsudo apt-get update\nsudo apt-get install -y build-essential git golang-go\n\n# For system tray support\nsudo apt-get install -y libayatana-appindicator3-dev libgtk-3-dev"
      ∷ heading 4 "macOS"
      ∷ code_block "Terminal" "bash"
          "# Install Xcode Command Line Tools\nxcode-select --install\n\n# Install Homebrew if not present\n/bin/bash -c \"$(curl -fsSL https://raw.githubusercontent.com/Homebrew/install/HEAD/install.sh)\"\n\n# Install Go\nbrew install go"
      ∷ heading 3 "Build Process"
      ∷ code_block "Terminal" "bash"
          "# Clone repository\ngit clone https://github.com/penguintechinc/WaddlePerf.git\ncd WaddlePerf/go-client\n\n# Install dependencies\ngo mod download\n\n# Build with system tray support\ngo build -o waddleperf ./cmd/waddleperf\n\n# Build without system tray (no GTK dependencies)\ngo build -tags nosystray -o waddleperf ./cmd/waddleperf\n\n# Install to system\nsudo mv waddleperf /usr/local/bin/"
      ∷ [];
}

unfoldable pub thin_client : Section
thin_client = record {
  id = some "thin-client";
  blocks =
      heading 2 "Thin Client Installation"
      ∷ paragraph (text "Quick installation scripts for minimal setup." ∷ [])
      ∷ heading 3 "Linux/macOS"
      ∷ code_block "Terminal" "bash"
          "curl -sSL https://raw.githubusercontent.com/penguintechinc/WaddlePerf/main/client/thin-installers/debian-thininstall.sh | bash"
      ∷ heading 3 "Windows (PowerShell as Administrator)"
      ∷ code_block "PowerShell" "bash"
          "Invoke-WebRequest -Uri https://raw.githubusercontent.com/penguintechinc/WaddlePerf/main/client/thin-installers/windows-thininstall.ps -OutFile install.ps1\n./install.ps1"
      ∷ [];
}
