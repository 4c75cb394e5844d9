-- ===== src/Db/Query.antt =====
-- The statements of db/sqlc/*.sql.go, one module for each table.
pub mod Page
pub mod Reads
pub mod Accounts
pub mod Entries
pub mod Transfers
pub mod Users
pub mod Sessions
pub mod VerifyEmails
