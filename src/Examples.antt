-- ===== src/Examples.antt =====
-- The theorems at concrete states, and tests.
pub mod States
pub mod Auth
pub mod Storage
pub mod Routes
pub mod Delivery
pub mod Gateway
pub mod Sending
pub mod Network
pub mod Commands
pub mod Redis
pub mod Startup
pub mod Runs
pub mod Starting
pub mod Hub
