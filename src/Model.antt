-- ===== src/Model.antt =====
-- The rows and word lists of the task domain (backend/v2/models/tasking.py, models/catalog.py,
-- errors.py, task_state.py), the database that holds them, and the transactions over it.
pub mod Words
pub mod Rows
pub mod Tx
