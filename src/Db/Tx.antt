-- ===== src/Db/Tx.antt =====
-- The transactions of db/sqlc/store.go and tx_*.go.
pub mod Exec
pub mod Transfer
pub mod CreateUser
pub mod VerifyEmail
pub mod Locks
