-- ===== src/Website/Guides/Contributing.antt =====
-- The page archive/website/src/pages/docs/contributing.tsx.
use waddle_perf.Common.{List, [], ◌∷◌, none}
use waddle_perf.Website.Document.{
  Section, heading, paragraph, bullets, numbers, pre, text, strong, code, link,
}

unfoldable pub head : Section
head = record {
  id = none;
  blocks =
      paragraph (link "/docs" "← Back to Documentation" ∷ [])
      ∷ heading 1 "🤝 Contributing Guide"
      ∷ [];
}

unfoldable pub body : Section
body = record {
  id = none;
  blocks =
      heading 2 "Welcome Contributors!"
      ∷ paragraph (
          text
            "We're excited that you're interested in contributing to WaddlePerf! This guide will help you get started with contributing to our open-source network performance testing platform."
          ∷ [])
      ∷ heading 3 "🚀 Getting Started"
      ∷ numbers (
          (strong "Fork the Repository:" ∷ text " Create your own fork of WaddlePerf" ∷ [])
          ∷ (strong "Clone Locally:"
              ∷ text " "
              ∷ code "git clone https://github.com/penguintechinc/WaddlePerf.git"
              ∷ [])
          ∷ (strong "Set Up Development Environment:" ∷ text " Follow the installation guide" ∷ [])
          ∷ (strong "Create Feature Branch:"
              ∷ text " "
              ∷ code "git checkout -b feature/your-feature-name"
              ∷ [])
          ∷ [])
      ∷ heading 3 "🛠\u{fe0f} Development Environment"
      ∷ heading 4 "Prerequisites:"
      ∷ bullets (
          (strong "Go 1.21+" ∷ text " for client development" ∷ [])
          ∷ (strong "Python 3.8+" ∷ text " for server and testing tools" ∷ [])
          ∷ (strong "Docker & Docker Compose" ∷ text " for local testing" ∷ [])
          ∷ (strong "Node.js 18+" ∷ text " for website development" ∷ [])
          ∷ [])
      ∷ heading 4 "Setup Commands:"
      ∷ pre
          "# Server development\ncd server\npip install -r requirements.txt\n\n# Go client development  \ncd go-client\ngo mod download\n\n# Website development\ncd website\nnpm install"
      ∷ heading 3 "📋 Contribution Types"
      ∷ bullets (
          (strong "Bug Fixes:" ∷ text " Fix identified issues and improve stability" ∷ [])
          ∷ (strong "Feature Development:" ∷ text " Add new testing capabilities" ∷ [])
          ∷ (strong "Documentation:" ∷ text " Improve guides, examples, and API docs" ∷ [])
          ∷ (strong "Performance Optimization:" ∷ text " Enhance speed and resource usage" ∷ [])
          ∷ (strong "Testing:" ∷ text " Add unit tests, integration tests, and examples" ∷ [])
          ∷ [])
      ∷ heading 3 "📝 Code Standards"
      ∷ heading 4 "Go Code:"
      ∷ bullets (
          (text "Follow " ∷ code "gofmt" ∷ text " formatting" ∷ [])
          ∷ (text "Use meaningful variable and function names" ∷ [])
          ∷ (text "Include comprehensive error handling" ∷ [])
          ∷ (text "Write unit tests for new functions" ∷ [])
          ∷ [])
      ∷ heading 4 "Python Code:"
      ∷ bullets (
          (text "Follow PEP8 style guidelines" ∷ [])
          ∷ (text "Use type hints where appropriate" ∷ [])
          ∷ (text "Include docstrings for functions and classes" ∷ [])
          ∷ (text "Maintain async/threading patterns" ∷ [])
          ∷ [])
      ∷ heading 3 "🧪 Testing Requirements"
      ∷ bullets (
          (strong "Unit Tests:" ∷ text " Test individual functions and components" ∷ [])
          ∷ (strong "Integration Tests:" ∷ text " Test component interactions" ∷ [])
          ∷ (strong "Performance Tests:" ∷ text " Ensure no performance regression" ∷ [])
          ∷ (strong "Documentation Tests:" ∷ text " Verify examples work correctly" ∷ [])
          ∷ [])
      ∷ heading 3 "📤 Pull Request Process"
      ∷ numbers (
          (strong "Create Clear Title:" ∷ text " Describe the change concisely" ∷ [])
          ∷ (strong "Write Description:" ∷ text " Explain what, why, and how" ∷ [])
          ∷ (strong "Link Issues:" ∷ text " Reference related GitHub issues" ∷ [])
          ∷ (strong "Add Tests:" ∷ text " Include relevant test coverage" ∷ [])
          ∷ (strong "Update Documentation:" ∷ text " Keep docs current with changes" ∷ [])
          ∷ [])
      ∷ heading 3 "🏷\u{fe0f} Issue Labels"
      ∷ bullets (
          (strong "good-first-issue:" ∷ text " Perfect for new contributors" ∷ [])
          ∷ (strong "bug:" ∷ text " Something isn't working correctly" ∷ [])
          ∷ (strong "enhancement:" ∷ text " New feature or improvement" ∷ [])
          ∷ (strong "documentation:" ∷ text " Improvements to documentation" ∷ [])
          ∷ (strong "performance:" ∷ text " Speed or efficiency improvements" ∷ [])
          ∷ [])
      ∷ heading 3 "💬 Communication"
      ∷ bullets (
          (strong "GitHub Issues:" ∷ text " Bug reports and feature requests" ∷ [])
          ∷ (strong "GitHub Discussions:" ∷ text " General questions and ideas" ∷ [])
          ∷ (strong "Pull Request Comments:" ∷ text " Code review and feedback" ∷ [])
          ∷ (strong "Email:"
              ∷ text " "
              ∷ link "mailto:dev@penguintech.io" "dev@penguintech.io"
              ∷ text " for private matters"
              ∷ [])
          ∷ [])
      ∷ paragraph (
          strong "🌟 Recognition:"
          ∷ text
              " All contributors are acknowledged in our README and release notes. Thank you for helping make WaddlePerf better!"
          ∷ [])
      ∷ heading 3 "📄 Code of Conduct"
      ∷ paragraph (
          text
            "We are committed to providing a welcoming and inspiring community for all. Please review our Code of Conduct before contributing."
          ∷ [])
      ∷ heading 3 "📞 Need Help?"
      ∷ paragraph (
          text
            "Don't hesitate to ask questions! Create an issue with the \"question\" label or reach out via email. We're here to help you contribute successfully."
          ∷ [])
      ∷ [];
}

unfoldable pub guide : List Section
unfolding head body
guide = head ∷ body ∷ []
