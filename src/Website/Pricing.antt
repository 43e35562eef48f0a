-- ===== src/Website/Pricing.antt =====
-- The plans of archive/website/src/components/Pricing.tsx and the columns of
-- archive/website/src/components/Footer.tsx.
use Prim.Native.String.{String}
use waddle_perf.Common.{ℕ, ◌*◌, List, [], ◌∷◌, Bool, true, false, if◌then◌else◌, Option, none, some}
use waddle_perf.Website.Home.{Item, item}

pub record Plan : Type 0 where
  pub name : String
  pub price : String
  pub description : String
  pub features : List String
  pub cta : String
  pub href : String
  pub popular : Bool

unfoldable pub pricing_plans : List Plan
pricing_plans =
    record {
      name = "Open Source";
      price = "Free";
      description = "Perfect for individuals and small teams";
      features =
          "All core testing features" ∷ "AutoPerf 3-tier system" ∷ "Docker deployment"
          ∷ "Community support" ∷ "GitHub documentation" ∷ "Open source license" ∷ [];
      cta = "Get Started";
      href = "https://github.com/PenguinCloud/WaddlePerf";
      popular = false;
    }
    ∷ record {
      name = "Enterprise";
      price = "Contact Us";
      description = "For organizations requiring enterprise features";
      features =
          "Everything in Open Source" ∷ "Priority support (24/7)" ∷ "Custom integrations"
          ∷ "Advanced security features" ∷ "SLA guarantees" ∷ "Professional services"
          ∷ "Custom deployment options" ∷ [];
      cta = "Contact Sales";
      href = "mailto:sales@penguintech.io";
      popular = true;
    }
    ∷ record {
      name = "Managed Service";
      price = "Custom";
      description = "Fully managed WaddlePerf in the cloud";
      features =
          "Hosted infrastructure" ∷ "Automatic updates" ∷ "Monitoring & alerting"
          ∷ "Backup & disaster recovery" ∷ "Global edge locations" ∷ "White-label options" ∷ [];
      cta = "Learn More";
      href = "mailto:sales@penguintech.io";
      popular = false;
    }
    ∷ []

-- `delay` is in tenths of a second.
pub record PlanCard : Type 0 where
  pub plan : Plan
  pub ring : String
  pub badge : Option String
  pub button_style : String
  pub delay : ℕ

unfoldable pub plan_card : ℕ → Plan → PlanCard
plan_card index p = record {
  plan = p;
  ring = if p.popular then "ring-2 ring-primary-500 scale-105" else "";
  badge = if p.popular then some "Most Popular" else none;
  button_style =
      if p.popular
      then "bg-primary-600 text-white hover:bg-primary-700"
      else "bg-gray-100 text-gray-900 hover:bg-gray-200";
  delay = index * 2;
}

pub record Column : Type 0 where
  pub title : String
  pub items : List Item

abbrev pub footer_github : Item
footer_github = item "GitHub" "https://github.com/penguintechinc/WaddlePerf"

abbrev pub footer_columns : List Column
footer_columns =
    record {
      title = "Product";
      items =
          item "Features" "#features"
          ∷ item "Pricing" "#pricing"
          ∷ item "Download" "https://github.com/penguintechinc/WaddlePerf/releases"
          ∷ item "GitHub" "https://github.com/penguintechinc/WaddlePerf"
          ∷ [];
    }
    ∷ record {
      title = "Documentation";
      items =
          item "Installation" "/docs/installation"
          ∷ item "Usage Guide" "/docs/usage"
          ∷ item "AutoPerf" "/docs/autoperf"
          ∷ item "Architecture" "/docs/architecture"
          ∷ [];
    }
    ∷ record {
      title = "Support";
      items =
          item "GitHub Issues" "https://github.com/penguintechinc/WaddlePerf/issues"
          ∷ item "Contributing" "/docs/contributing"
          ∷ item "Email Support" "mailto:support@penguintech.io"
          ∷ item "Security" "/docs/security"
          ∷ [];
    }
    ∷ record {
      title = "Company";
      items =
          item "Penguin Technologies" "https://penguintech.io"
          ∷ item "Contact Sales" "mailto:sales@penguintech.io"
          ∷ item "Privacy Policy" "/privacy"
          ∷ item "Terms of Service" "/terms"
          ∷ [];
    }
    ∷ []
