-- ===== src/Money.antt =====
-- common/money/decimal-amount.util.ts: exact arithmetic of amounts, in minor units.
pub mod Values
pub mod Amount
pub mod Exact
pub mod Division
