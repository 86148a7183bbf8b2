-- ===== src/Tests.antt =====
-- Examples: the theorems at concrete inputs.
mod Data
mod Append
mod Vote
mod Replicate
mod Cluster
mod Rpc
mod Persist
mod Accrual
mod Socket
mod Programs
mod Election
