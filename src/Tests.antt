-- ===== src/Tests.antt =====
-- The theorems at concrete inputs.
pub mod Numbers
pub mod Money
pub mod Outbox
pub mod Rating
pub mod Billing
pub mod Documents
pub mod Merchants
pub mod Inbox
pub mod Fiscal
pub mod Dispatch
pub mod Segmentation
