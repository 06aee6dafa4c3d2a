-- ===== src/Examples.antt =====
-- Examples: concrete stores, disks and configurations, and the theorems applied to them.
pub mod Stores
pub mod Disks
pub mod Changes
pub mod Settings
pub mod Sources
pub mod Transitions
pub mod Development
