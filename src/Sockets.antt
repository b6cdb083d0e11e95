-- ===== src/Sockets.antt =====
-- src/modules/websockets: validators subscribe to block events over web sockets.
pub mod Subscriptions
pub mod Server
