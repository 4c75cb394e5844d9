-- ===== src/Logger.antt =====
-- logger/: the log of the servers.
pub mod Entry
pub mod Core
pub mod Values
pub mod Grpc
pub mod Stream
pub mod Recorder
pub mod Http
