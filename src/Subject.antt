-- ===== src/Subject.antt =====
-- Subject threads: what is said about a record, to the one whom it is about or to a group.
pub mod Types
pub mod Store
pub mod Manager
pub mod Posting
