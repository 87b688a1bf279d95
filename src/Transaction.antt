-- ===== src/Transaction.antt =====
-- engine/transaction: the undo log of a transaction, and the manager of the open transactions.
pub mod Undo
pub mod Manager
