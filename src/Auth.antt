-- ===== src/Auth.antt =====
-- auth.go: the account manager.
pub mod User
pub mod Manager
pub mod Store
pub mod Login
pub mod Refresh
pub mod Operation
pub mod Kept
pub mod Ownership
pub mod Durable
pub mod Rotation
pub mod Shared
