-- ===== src/Process.antt =====
-- main.go: the two servers that the process runs.
pub mod Rpc
pub mod Gateway
