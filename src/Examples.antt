-- ===== src/Examples.antt =====
-- The theorems at concrete inputs, and tests.
pub mod StorageRuns
pub mod RecoveryRuns
pub mod ClusterRuns
pub mod ProtocolRuns
pub mod ServerRuns
pub mod WriteRuns
pub mod DispatchRuns
pub mod QueueRuns
pub mod PoolRuns
