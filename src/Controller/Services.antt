-- ===== src/Controller/Services.antt =====
-- controller/src/services: the gRPC services, and the guards of controller/src/services/mod.rs. A
-- handler runs at one instant, `now`; the new `Uuid`s are arguments.
pub mod Guards
pub mod Auth
pub mod Info
pub mod Routes
pub mod Access
pub mod KeepAlive
pub mod Total
