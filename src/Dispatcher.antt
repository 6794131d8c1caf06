-- ===== src/Dispatcher.antt =====
-- backend/v2/task_dispatcher.py: claiming pending rounds, reclaiming lost ones, and the two sweeps.
pub mod Claim
pub mod Reclaim
pub mod Sweep
pub mod Bounds
