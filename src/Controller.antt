-- ===== src/Controller.antt =====
-- controller/src.
pub mod Models
pub mod Storage
pub mod Redis
pub mod State
pub mod Session
pub mod Routing
pub mod Membership
pub mod Services
pub mod Startup
pub mod Runs
pub mod Server
