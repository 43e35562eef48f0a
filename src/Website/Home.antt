-- ===== src/Website/Home.antt =====
-- The start page archive/website/src/pages/index.tsx with the components Navigation, Hero, Pricing
-- and Footer of archive/website/src/components: their data, and what is chosen by it. Animations and
-- fixed styles are left out.
use Prim.Native.String.{String}
use text.Mathlib.Text.{◌==◌ as str_eq}
use waddle_perf.Common.{
  ℕ, ◌+◌, ◌*◌, ◌%◌, List, [], ◌∷◌, ◌++◌, map, Bool, ◌==◌, ltb, if◌then◌else◌, Option, none, some,
}

-- A link: what it says and where it leads.
pub record Item : Type 0 where
  pub name : String
  pub href : String

abbrev pub item : String → String → Item
item name href = record { name = name; href = href }

abbrev pub hrefs : List Item → List String
hrefs = map (λ i. i.href)

-- Navigation.tsx. The links are there twice while the menu of a small screen is open.
abbrev pub navigation : List Item
navigation =
    item "Features" "#features"
    ∷ item "Pricing" "#pricing"
    ∷ item "Docs" "#docs"
    ∷ item "GitHub" "https://github.com/PenguinCloud/WaddlePerf"
    ∷ []

abbrev pub download : Item
download = item "Download" "https://github.com/PenguinCloud/WaddlePerf/releases"

pub data MenuIcon : Type 0 where
  cross bars : MenuIcon

pub record NavigationView : Type 0 where
  pub desktop : List Item
  pub button : MenuIcon
  pub menu : Option (List Item)

unfoldable pub navigation_view : Bool → NavigationView
navigation_view is_open = record {
  desktop = navigation ++ download ∷ [];
  button = if is_open then cross else bars;
  menu = if is_open then some (navigation ++ download ∷ []) else none;
}

abbrev pub menu_items : Option (List Item) → List Item
menu_items none = []
menu_items (some items) = items

-- Hero.tsx
abbrev pub hero_buttons : List Item
hero_buttons =
    item "Get Started Free" "https://github.com/PenguinCloud/WaddlePerf"
    ∷ item "Learn More" "#features"
    ∷ []

pub record Stat : Type 0 where
  pub value : String
  pub label : String

abbrev pub hero_stats : List Stat
hero_stats =
    record { value = "3-Tier"; label = "Smart Testing System" }
    ∷ record { value = "8+"; label = "Testing Tools" }
    ∷ record { value = "100%"; label = "Open Source" }
    ∷ []

-- `checkDevice`, for the width of the window behind the first render and behind each change of it.
unfoldable pub check_device : ℕ → Bool
check_device inner_width = ltb inner_width 768

abbrev pub is_mobile : Bool → List ℕ → Bool
is_mobile b [] = b
is_mobile b (w ∷ ws) = is_mobile (check_device w) ws

-- The feature cards: `icon` is the name of the component.
pub record Feature : Type 0 where
  pub name : String
  pub description : String
  pub icon : String

abbrev pub feature : String → String → String → Feature
feature name description icon = record { name = name; description = description; icon = icon }

unfoldable pub features : List Feature
features =
    feature "AutoPerf Monitoring"
      "Intelligent 3-tier testing system that automatically escalates when thresholds are exceeded."
      "ChartBarIcon"
    ∷ feature "Global Testing"
        "Test connectivity between any endpoints - regions, clusters, or internet connections."
        "GlobeAltIcon"
    ∷ feature "Lightning Fast"
        "Optimized for speed with minimal resource usage during continuous monitoring." "BoltIcon"
    ∷ feature "Enterprise Security"
        "Security gold standard with vulnerability scanning and secure deployment options."
        "ShieldCheckIcon"
    ∷ feature "Multi-Platform"
        "Native clients for Windows, macOS, Linux, plus Docker and cloud deployments." "ServerIcon"
    ∷ feature "Mobile Responsive" "Full-featured web interface that works perfectly on all devices."
        "DevicePhoneMobileIcon"
    ∷ []

-- The tiers, with the three places where their color chooses a style, and the arrow to the next one.
pub record Tier : Type 0 where
  pub tier : String
  pub title : String
  pub frequency : String
  pub description : String
  pub tests : List String
  pub color : String

unfoldable pub tiers : List Tier
tiers =
    record {
      tier = "Tier 1";
      title = "Basic Monitoring";
      frequency = "Every 5 minutes";
      description = "Lightweight baseline monitoring with minimal resource usage";
      tests = "Basic Ping" ∷ "HTTP GET" ∷ "DNS Resolution" ∷ "TCP Connect" ∷ [];
      color = "green";
    }
    ∷ record {
      tier = "Tier 2";
      title = "Intermediate Diagnostics";
      frequency = "Threshold triggered";
      description = "Identify nature and scope of network issues";
      tests = "Extended Ping" ∷ "Traceroute/MTR" ∷ "iperf3 Quick" ∷ "Port Scan" ∷ [];
      color = "yellow";
    }
    ∷ record {
      tier = "Tier 3";
      title = "Comprehensive Analysis";
      frequency = "Critical issues";
      description = "Full diagnostic suite for root cause analysis";
      tests = "Extended iperf3" ∷ "Full MTR" ∷ "Packet Capture" ∷ "System Diagnostics" ∷ [];
      color = "red";
    }
    ∷ []

abbrev pub by_color : String → String → String → String → String
by_color color green yellow red =
    if str_eq color "green" then green else if str_eq color "yellow" then yellow else red

-- `delay` is in tenths of a second.
pub record TierCard : Type 0 where
  pub tier : Tier
  pub border : String
  pub corner : String
  pub badge : String
  pub arrow : Bool
  pub delay : ℕ

unfoldable pub tier_card : ℕ → Tier → TierCard
tier_card index t = record {
  tier = t;
  border =
      by_color t.color "border-green-200 hover:border-green-300"
        "border-yellow-200 hover:border-yellow-300" "border-red-200 hover:border-red-300";
  corner = by_color t.color "bg-green-500" "bg-yellow-500" "bg-red-500";
  badge =
      by_color t.color "bg-green-100 text-green-800" "bg-yellow-100 text-yellow-800"
        "bg-red-100 text-red-800";
  arrow = ltb index 2;
  delay = index * 2;
}

unfoldable pub testing_tools : List String
testing_tools =
    "ipping - Advanced ping testing" ∷ "HTTPtrace - HTTP connection analysis"
    ∷ "MTR - Network route diagnostics" ∷ "iperf3 - Bandwidth testing"
    ∷ "SSH Ping - SSH connectivity checks" ∷ "Custom MTU Discovery" ∷ "UDP Ping Server/Client"
    ∷ "DNS Resolution Timing" ∷ []

-- A row comes in from the left at an even place.
pub record ToolRow : Type 0 where
  pub tool : String
  pub from_left : Bool
  pub delay : ℕ

abbrev pub tool_rows : ℕ → List String → List ToolRow
tool_rows i [] = []
tool_rows i (t ∷ ts) = record { tool = t; from_left = i % 2 == 0; delay = i } ∷ tool_rows (i + 1) ts

-- Behind the plans: the last two buttons.
abbrev pub call_to_action : List Item
call_to_action =
    item "Get Started Free" "https://github.com/PenguinCloud/WaddlePerf"
    ∷ item "View Documentation" "/docs"
    ∷ []
