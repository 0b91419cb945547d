-- ===== src/Documents.antt =====
-- The accounting documents: modules/accounting/documents/domain and services, with the guards of
-- common/services/legal-entity-access.service.ts and accounting/posting/services/period-guard.service.ts.
pub mod Rows
pub mod Access
pub mod Policy
pub mod Approval
pub mod Posting
pub mod Passed
pub mod Guards
pub mod Traces
