-- ===== src/Dm.antt =====
-- Direct and group messages: models/directmessage.go, dm_*_impl.go and manager_dm.go.
pub mod Types
pub mod Roster
pub mod Messages
pub mod Manager
