-- ===== src/Payments.antt =====
-- internal/app/payments/payments.go: manual bank transfers. The rows that the package reads and
-- writes are records in lists, an SQL statement is the change of the lists that it denotes, and a
-- transaction that fails leaves the lists as they were. Failures of the database connection, which
-- the code passes on as they come, are not modelled.
pub mod Rows
pub mod Decisions
pub mod Proofs
pub mod Overdue
pub mod Queue
mod Examples
