-- ===== src/Cluster.antt =====
-- src/cluster: the nodes, the ring of hashes and the router.
pub mod ConsistentHash
pub mod Router
