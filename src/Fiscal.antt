-- ===== src/Fiscal.antt =====
-- The tax authority: modules/fiscal/siat, its domain and the queue of documents.
pub mod Cuf
pub mod Totals
pub mod Words
pub mod Codes
pub mod Dispatch
