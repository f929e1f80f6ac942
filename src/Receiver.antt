-- ===== src/Receiver.antt =====
-- internal/receiver: authentication and the handlers of webhooks and scripts.
pub mod Auth
pub mod Handlers
pub mod Routes
pub mod Served
pub mod Authentic
pub mod Unauthentic
pub mod Accepts
