-- ===== src/Accounting.antt =====
-- internal/accounting: the double-entry ledger and the documents that post to it.
pub mod Money
pub mod Model
pub mod Date
pub mod Ledger
pub mod Reports
pub mod Documents
pub mod Invoice
mod Tests
