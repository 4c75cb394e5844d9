-- ===== src/Gapi.antt =====
-- gapi: the handlers of the gRPC service.
pub mod Status
pub mod Swagger
pub mod Server
pub mod Accounts
pub mod Transfers
pub mod Entries
pub mod Metadata
pub mod Users
pub mod Sessions
pub mod Interceptor
pub mod Effects
pub mod Custody
pub mod Guards
