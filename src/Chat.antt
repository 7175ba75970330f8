-- ===== src/Chat.antt =====
-- Chat: the threads of a structure, their messages, and who reads them.
pub mod Types
pub mod Label
pub mod Threads
pub mod Messages
pub mod Manager
pub mod Start
pub mod ReadById
pub mod Activity
