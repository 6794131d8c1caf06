-- ===== src/Executor.antt =====
-- backend/v2/task_executor.py: the database side of a round's execution, and of its termination.
pub mod Round
pub mod Terminate
pub mod Fencing
pub mod Erasure
