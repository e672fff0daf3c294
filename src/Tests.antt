-- ===== src/Tests.antt =====
-- The theorems at concrete inputs: node ids, keys, values and addresses are numbers.
pub mod Crdt
pub mod Replicas
pub mod Store
pub mod Peers
pub mod Consensus
pub mod Overlay
pub mod Votes
pub mod Disk
pub mod Rounds
pub mod Repair
pub mod Faults
pub mod Board
pub mod Swarm
pub mod Syncs
pub mod Database
