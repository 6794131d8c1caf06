-- ===== src/Service.antt =====
-- backend/v2/task_service.py: the requests of a user on the task domain.
pub mod Quota
pub mod Create
pub mod Commit
pub mod Finish
pub mod Delete
pub mod Send
pub mod Refusals
pub mod Gates
pub mod Bounds
