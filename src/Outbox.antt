-- ===== src/Outbox.antt =====
-- The transactional outbox: src/workers/outbox/ and its delivery to consumers.
pub mod Rows
pub mod Relay
pub mod Operations
pub mod Backoff
pub mod Tables
pub mod Claims
pub mod Delivery
pub mod Steps
pub mod Settled
pub mod Order
