-- ===== src/Events.antt =====
-- The package events: the queue and the loop of one subscription, and the manager of them all.
pub mod Subscription
pub mod Manager
pub mod Examples
