-- ===== src/Client.antt =====
-- client/src: the client.
pub mod Command
pub mod Commander
pub mod Landing
pub mod Prompt
pub mod Server
