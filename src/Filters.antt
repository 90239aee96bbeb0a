-- ===== src/Filters.antt =====
-- The filters of serve/filters: what a client polls for, the subscriptions of web socket clients, and
-- the manager that applies every new block to both.
pub mod Poll
pub mod Subscriptions
pub mod Manager
pub mod Examples
