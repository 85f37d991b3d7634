-- ===== src/TaskEvents.antt =====
-- efp_opencode_adapter/tasks_api.py: which events and messages belong to a task, what an event says of
-- its permissions, and what is shown of a record.
pub mod Compact
pub mod Ids
pub mod Delta
pub mod Shown
pub mod Small
mod Tests
