-- ===== src/Concurrency/Locks.antt =====
-- engine/concurrency/locks.py: the lock table, the wait-for graph and the deadlock detector. Every
-- method holds the manager's one lock from its start to its end or to its wait, so a thread's
-- `acquire` is a sequence of steps: `start_acquire`, and a `resume` each time that it is woken.
-- A step keeps its changes when it raises. Whether the deadline has passed is an argument. Trace
-- events, messages and the read-only views of the table are left out.
pub mod Table
pub mod Graph
pub mod Acquire
pub mod Cycle
pub mod Fuel
pub mod Safety
pub mod Sound
pub mod Release
pub mod History
pub mod Waits
pub mod Deadlock
