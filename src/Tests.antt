-- ===== src/Tests.antt =====
-- The theorems at concrete inputs.
pub mod Errors
pub mod Address
pub mod Roster
pub mod Moderation
pub mod Chat
pub mod Direct
pub mod Notification
pub mod Standing
pub mod Subject
pub mod Push
pub mod Identity
