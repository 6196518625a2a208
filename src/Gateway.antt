-- ===== src/Gateway.antt =====
-- gateway/src: what a proxy and a client use to talk to the controller and to each other.
pub mod Clients
pub mod Session
pub mod RouteClient
pub mod ProxyClient
pub mod Auth
pub mod AuthService
pub mod Channels
