-- ===== src/Billing.antt =====
-- The money rules of the merchant: modules/b2b-sales-crm/domain and the base of its services.
pub mod Rules
pub mod Purchase
pub mod Fee
pub mod Mdr
pub mod Invoice
pub mod Settlement
