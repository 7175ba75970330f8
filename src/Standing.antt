-- ===== src/Standing.antt =====
-- Standing messages: a chat message that is posted again at each occurrence of a schedule.
pub mod Types
pub mod Schedule
pub mod Store
pub mod Manager
