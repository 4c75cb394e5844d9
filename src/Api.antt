-- ===== src/Api.antt =====
-- api: the REST handlers over Gin. The router runs `authMiddleware` before the handlers of the
-- protected group.
pub mod Status
pub mod Binding
pub mod Server
pub mod Accounts
pub mod Transfers
pub mod Users
pub mod Sessions
pub mod Middleware
pub mod Router
pub mod Guards
pub mod Effects
pub mod Agreement
