-- ===== src/Crosscutting.antt =====
-- crosscutting/src: what the controller, the proxies and the clients share.
pub mod Component
pub mod Networking
pub mod Endpoint
pub mod Settings
pub mod Serving
