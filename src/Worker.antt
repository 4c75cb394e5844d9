-- ===== src/Worker.antt =====
-- worker: the tasks that run apart from the calls.
pub mod Queues
pub mod Distribute
pub mod Process
