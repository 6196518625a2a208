-- ===== src/Proxy.antt =====
-- proxy/src: the proxy.
pub mod Clients
pub mod Service
pub mod Server
