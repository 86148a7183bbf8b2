-- ===== src/Orchestrator/Shutdown.antt =====
-- src/transport-pipe/orchestrator.c and src/raft.c: the end of the nodes' main loops.
use raft_research.Prelude.{
  ℕ, ◌+◌, ◌<◌, ◌≡◌, refl, ap, ◌∙◌, List, ◌∷◌, ◌++◌, some, false, ◌&&◌, inl, inr, Bool-cases, length,
  get_elem?, get_elem?-append_right,
}
use raft_research.Float.{Double}
use raft_research.Transport.{Pkt}
use raft_research.Raft.Node.{RaftNode}
use raft_research.Raft.Dispatch.{Received, packet, handle_received, run_turn, raft_run, is_none}
use raft_research.Raft.Leadership.Quorum.{ended, raft_run-append}
use raft_research.Orchestrator.{Poll, shutdown_pkt, shutdown_all_nodes, orchestra_loop}
use raft_research.Orchestrator.Writes.{orchestra_loop-writes}

-- The main loop of the node has ended.
abbrev pub HasEnded : RaftNode → Type 0
HasEnded node = (node.running && is_none node.io.exit_status) ≡ false

-- The loop ends at the packet, if it has not ended before.
at_shutdown :
    (fp : Double) (n : ℕ) (rest : List Received) (node : RaftNode)
    → HasEnded (raft_run fp (packet (shutdown_pkt n) ∷ rest) node)
unfolding raft_run run_turn handle_received
at_shutdown fp n rest node = elim (Bool-cases (node.running && is_none node.io.exit_status)) [
  | inr ends ↦ rw ends ends
  | inl goes ↦
      let after = run_turn fp (packet (shutdown_pkt n)) node in
      let same : raft_run fp rest after ≡ after = ended fp rest after refl in rw (goes, same) refl
]

-- However the loop of the orchestrator goes: for each node it writes a packet to the pipe of the node
-- that ends the main loop of every node which receives it, whatever the node has received before and
-- whatever would come after.
pub orchestra_loop-ends :
    (fp : Double) (n : ℕ) (polls : List Poll) (i : ℕ)
    → i < n
    → (k : ℕ) × (pkt : Pkt) × (get_elem? (orchestra_loop n polls) k ≡ some (i, pkt))
      × ((before rest : List Received) (node : RaftNode)
          → HasEnded (raft_run fp (before ++ packet pkt ∷ rest) node))
orchestra_loop-ends fp n polls i h =
    let out = orchestra_loop-writes n polls in
    let k = length out.forwarded + i in
    let found : get_elem? (orchestra_loop n polls) k ≡ some (i, shutdown_pkt n) =
      ap (λ w. get_elem? w k) out.split
      ∙ get_elem?-append_right out.forwarded (shutdown_all_nodes n) i
      ∙ out.each i h in
    (
      k,
      shutdown_pkt n,
      found,
      λ before rest node.
          let path = raft_run-append fp before (packet (shutdown_pkt n) ∷ rest) node in
          ap (λ m. m.running && is_none m.io.exit_status) path
          ∙ at_shutdown fp n rest (raft_run fp before node),
    )
