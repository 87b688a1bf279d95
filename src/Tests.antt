-- ===== src/Tests.antt =====
-- Runs of the definitions at concrete inputs.
mod Keys
mod Locks
mod Log
mod Pages
mod Pool
mod Records
mod Recovery
mod Transactions
