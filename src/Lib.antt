-- ===== src/Lib.antt =====
-- Models of the financial core of the ERP backend, with the theorems that make it correct.
--
-- The program is a NestJS service over PostgreSQL. Money enters through one conversion boundary, is
-- worked on in integer minor units, and leaves as decimal text. Accounting documents are drafted,
-- approved by a second person, and posted as double entries; what is posted is announced through a
-- transactional outbox that a separate worker delivers. The merchant side splits purchases, computes
-- commissions and invoices, and rates the portfolio by days past due. The fiscal side computes the code
-- and the amounts of an invoice and sends it to the tax authority from a queue. Consumers of events keep
-- an inbox, and segments of customers are rules over facts.
--
-- The files, and the code that each models (paths from the root of the repository):
--   Prelude, Text       the shared types: results of calls that throw, signed integers, lists, texts as
--                       lists of code units, decimal numerals.
--   Money               src/common/money/decimal-amount.util.ts. Money/Amount: toMinorUnits,
--                       fromMinorUnits, normalizeAmount. Money/Exact: parseDecimalExact, parseMoney,
--                       parseRatePercent, assertSingleCurrency. Money/Division: divideRounded,
--                       applyRatePercent, allocateProportionally, splitEvenly.
--   Outbox              src/workers/outbox: Outbox/Rows the table and the envelope, Outbox/Relay the
--                       relay of outbox-relay.ts (claimBatch, deliver, runOnce, markPublished,
--                       markFailed), Outbox/Operations replayEvent of outbox-operations.ts. A statement
--                       of SQL is one atomic function on the table; the rows that another transaction
--                       has locked are a predicate.
--   Billing             src/modules/b2b-sales-crm/domain/merchant-billing-math.ts, in Billing/Rules.
--   Posting             src/modules/accounting/posting/validators/double-entry.validator.ts.
--   Documents           src/modules/accounting/documents: Documents/Policy is domain/approval-policy.ts,
--                       Documents/Approval is domain/document-approval.ts and the transaction of
--                       services/document-approval.service.ts in its reading and its writing part,
--                       Documents/Posting is postDocumentInSpan of services/accounting-posting.service.ts.
--                       Documents/Access is src/common/services/legal-entity-access.service.ts and the
--                       period guard. Documents/Traces interleaves the transactions on one document.
--   Rating              src/modules/b2b-sales-crm/domain/rating-scale.ts and account-rating.ts.
--   Coverage            src/modules/b2b-sales-crm/domain/coverage-eligibility.ts, with isPastDue of
--                       src/common/time/business-date.ts.
--   Onboarding          src/modules/b2b-sales-crm/domain/onboarding-lifecycle.ts.
--   Inbox               src/common/events/event-inbox.ts, both tables and the state in one transaction.
--   Fiscal/Cuf          src/modules/fiscal/siat/domain/cuf.ts.
--   Fiscal/Totals       src/modules/fiscal/siat/domain/montos.ts.
--   Fiscal/Words        src/modules/fiscal/siat/domain/monto-literal.ts.
--   Fiscal/Codes        src/modules/fiscal/siat/domain/siat-codes.ts.
--   Fiscal/Dispatch     src/modules/fiscal/siat/application/siat-dispatch.service.ts.
--   Segmentation        src/common/segmentation/rule-engine.ts and rule-schema.ts.
--   Billing/Mdr         src/modules/b2b-sales-crm/domain/mdr-rule-specificity.ts, and the choice of a rule in
--                       src/modules/b2b-sales-crm/services/b2b-sales-crm-use-case.base.ts.
--   Billing/Settlement  src/modules/b2b-sales-crm/domain/payable-settlement.ts and consumer-recovery.ts.
--   Tests               the theorems at concrete inputs.
--
-- The modules meet as the code does: billing and the validator call the money module, posting calls the
-- validator and the guards, the traces call the operations of the documents, the choice of a commission
-- rule calls the fee of billing, and the dispatch queue calls the invoice code.
--
-- Bounds. `bigint` is an unbounded integer here as there. Loops are recursion on a list,
-- but for two kinds on fuel: the prints of a number, whose fuel is above the number, so that the last
-- digit is always reached; and the words of a total, for which fuel for two calls is enough, as a theorem
-- below states. A scale of an amount is at most 12, as assertScale asks; a
-- column holds 18 digits, two of them decimals.
--
-- Parameters. IEEE doubles (`Floats` in Money/Values) with the operations that the code calls, the text
-- of a double, the rounded product of a provision, the seal of a journal (SHA-256 of its JSON), the
-- adapter that publishes an event, the redaction of an error's text, the period that the table holds for
-- an id, the effect of an inbox, the conversions and the lower case of texts that the segments compare
-- (`Language` in Segmentation), and around the fiscal queue (`Entorno` in Fiscal/Dispatch) the answers of
-- the gateway, the contingency service, the reads of the issuer and the rewriting of a compressed file.
--
-- Not modelled: controllers, schemas of requests, ORM models and migrations, logging and tracing, the
-- texts of messages, times other than those that a decision reads, the parsing of dates, and the other
-- modules of the program (the rest of the fiscal module, advertising, portal, gateways, files,
-- catalogues). src/common/qr/qr.ts is a copy of a library of another repository.
pub mod Billing
pub mod Coverage
pub mod Documents
pub mod Fiscal
pub mod Inbox
pub mod Money
pub mod Onboarding
pub mod Outbox
pub mod Posting
pub mod Prelude
pub mod Rating
pub mod Segmentation
pub mod Tests
pub mod Text
