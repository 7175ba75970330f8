-- ===== src/Address.antt =====
-- A member's addresses: models/address*.go and address_impl.go.
pub mod Code
pub mod Hours
pub mod State
pub mod Store
pub mod Directory
