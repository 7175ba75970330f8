-- ===== src/Moderation.antt =====
-- Moderation: reports of messages, their removal, the dispute of a removal, and dismissals.
pub mod Types
pub mod Acts
pub mod Store
