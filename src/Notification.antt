-- ===== src/Notification.antt =====
-- Notifications: what is raised for whom, what is muted, what is read and acknowledged.
pub mod Category
pub mod Types
pub mod Store
pub mod Receipts
pub mod Audience
pub mod Rules
