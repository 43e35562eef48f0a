-- ===== src/Website/Guides.antt =====
-- The guides of the archived web site, archive/website/src/pages/docs.
pub mod Installation
pub mod Usage
pub mod Autoperf
pub mod Architecture
pub mod Contributing
