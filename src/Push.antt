-- ===== src/Push.antt =====
-- Web push: the browsers that an actor subscribed, and what became of each delivery.
pub mod Types
pub mod Store
pub mod Delivery
