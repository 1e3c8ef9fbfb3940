-- ===== src/Vault.antt =====
-- internal/vault/store.go: the encrypted vault.
pub mod Context
pub mod Rows
pub mod Session
pub mod Audit
pub mod Secrets
pub mod Actions
pub mod Frames
pub mod Atomic
pub mod Invariant
pub mod Reachable
pub mod Keys
