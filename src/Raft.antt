-- ===== src/Raft.antt =====
-- src/raft.c: a Raft node.
pub mod Node
pub mod Timers
pub mod Send
pub mod Roles
pub mod Apply
pub mod Append
pub mod Replicate
pub mod Vote
pub mod Client
pub mod Dispatch
pub mod Progress
pub mod Leadership
