-- ===== src/Log.antt =====
-- src/log: the queue between the threads that log and the one that writes.
pub mod BlockQueue
