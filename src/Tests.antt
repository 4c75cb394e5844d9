-- ===== src/Tests.antt =====
-- Runs of the models at concrete inputs.
mod Data
mod Logs
mod Books
mod Transfers
mod Calls
mod Pages
mod Changes
mod Tokens
mod Overdraft
mod Rest
mod Mails
mod Jwt
mod Runs
mod Locks
