-- ===== src/Db.antt =====
-- db/sqlc: the store. `Models` are the rows, `World` the database with its failures and the store
-- monad, `Query` the statements of the *.sql.go files, `Tx` the transactions.
pub mod Models
pub mod Json
pub mod World
pub mod Success
pub mod Query
pub mod Tx
pub mod Guards
pub mod Effects
