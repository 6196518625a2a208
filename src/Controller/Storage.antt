-- ===== src/Controller/Storage.antt =====
-- controller/src/storage: the expiration times, and the in-memory repositories.
pub mod Expiration
pub mod Times
pub mod Sessions
pub mod Routes
pub mod Members
pub mod Choice
