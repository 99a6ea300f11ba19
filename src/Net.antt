-- ===== src/Net.antt =====
-- src/net: the threads that process requests.
pub mod ThreadPool
