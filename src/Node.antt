-- ===== src/Node.antt =====
-- src/dynamokv/node.py: one node of the cluster, its replica operations, the quorum fan-out to the
-- other nodes, and gossip with hinted handoff.
pub mod Replica
pub mod Network
pub mod Client
pub mod Coordinator
pub mod Local
pub mod Gather
pub mod Quorum
pub mod Growth
pub mod Writes
pub mod Reads
pub mod Durable
pub mod Freshness
pub mod Succession
pub mod Siblings
pub mod Background
pub mod Rounds
pub mod Replay
pub mod Worker
