-- ===== src/Raft/Apply/Frame.antt =====
-- src/raft.c, `apply_to_state_machine`: the fields outside it.
use raft_research.Prelude.{ℕ, zero, suc, ◌≡◌, arith}
use raft_research.Raft.Node.{RaftNode}
use raft_research.Raft.Apply.{
  answer_client, apply_entry, apply_one, apply_rounds, apply_to_state_machine,
}

-- Everything but the index of the last applied entry, the requests that wait, and the packets sent.
pub record SameState (a b : RaftNode) : Type 0 where
  pub config : b.config ≡ a.config
  pub role : b.role ≡ a.role
  pub log : b.log ≡ a.log
  pub hard_state : b.hard_state ≡ a.hard_state
  pub commit_index : b.commit_index ≡ a.commit_index
  pub leader_id : b.leader_id ≡ a.leader_id
  pub votes_received : b.votes_received ≡ a.votes_received
  pub next_index : b.next_index ≡ a.next_index
  pub match_index : b.match_index ≡ a.match_index
  pub running : b.running ≡ a.running
  pub timer : b.timer ≡ a.timer

apply_one-SameState : (node : RaftNode) → SameState node (apply_one node)
unfolding apply_one apply_entry answer_client
apply_one-SameState node = ground arith

apply_rounds-SameState : (n : ℕ) (node : RaftNode) → SameState node (apply_rounds n node)
unfolding apply_rounds
apply_rounds-SameState zero node = ground arith
apply_rounds-SameState (suc n) node =
    ground (arith, apply_one-SameState node, apply_rounds-SameState n (apply_one node))

pub apply_to_state_machine-SameState :
    (node : RaftNode) → SameState node (apply_to_state_machine node)
unfolding apply_to_state_machine
apply_to_state_machine-SameState node = apply_rounds-SameState _ node
