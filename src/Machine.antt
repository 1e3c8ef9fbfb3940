-- ===== src/Machine.antt =====
-- What the vault's code runs on: the tables of the SQLite database, as internal/vault/store.go
-- declares them, the keys in memory, and the libraries and the system around it.
pub mod Tables
pub mod Env
pub mod Exec
pub mod Rules
pub mod Triples
