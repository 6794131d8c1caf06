-- ===== src/Ledger.antt =====
-- The three accounts of the task domain (reservations, counters, slots) and how they agree.
pub mod Sums
pub mod Accounting
pub mod Invariant
pub mod Taking
pub mod Taken
pub mod Releasing
pub mod Restore
pub mod Steps
pub mod Flips
pub mod Finishing
pub mod Cleaning
pub mod Creating
pub mod Opening
pub mod Claiming
pub mod Queueing
pub mod Charging
pub mod Growing
pub mod Ending
pub mod Rounds
pub mod Background
pub use Invariant.*
