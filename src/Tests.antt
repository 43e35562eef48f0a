-- ===== src/Tests.antt =====
-- Runs at fixed inputs, and each result applied at an input that meets its conditions.
mod Validators
mod Forms
mod Sessions
mod Downloads
mod Runs
mod Speeds
mod Submissions
mod Themes
mod Pages
mod Statistics
mod Accounts
mod Website
