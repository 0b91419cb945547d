-- ===== src/Rating.antt =====
-- The portfolio rating of modules/b2b-sales-crm/domain: rating-scale.ts and account-rating.ts.
pub mod Scale
pub mod Coverage
pub mod Account
pub mod Worst
