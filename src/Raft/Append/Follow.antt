-- ===== src/Raft/Append/Follow.antt =====
-- src/raft.c, the end of `handle_append_entries_request`: the commit index that a follower takes over.
use raft_research.Prelude.{refl, Bool-cases, inl, inr, if◌then◌else◌}
use raft_research.Prelude.Int.{ℤ, ltb_ℤ, to_int}
use raft_research.Rpc.Messages.{AppendEntriesReq}
use raft_research.Raft.Node.{RaftNode}
use raft_research.Raft.Apply.Frame.{SameState, apply_to_state_machine-SameState}
use raft_research.Raft.Append.{last_new_idx, follow_commit}

abbrev pub min_ℤ : ℤ → ℤ → ℤ
min_ℤ a b = if ltb_ℤ a b then a else b

-- The lower of the leader's commit index and the last new entry, when the leader's is higher.
abbrev pub followed : AppendEntriesReq → ℤ → ℤ
followed req commit_index =
    if ltb_ℤ commit_index req.leader_commit
    then min_ℤ req.leader_commit (to_int (last_new_idx req))
    else commit_index

-- Nothing else changes but what `apply_to_state_machine` does.
pub follow_commit-SameState :
    (req : AppendEntriesReq) (node : RaftNode)
    → SameState
        (record node { commit_index = followed req node.commit_index })
        (follow_commit req node)
unfolding follow_commit
follow_commit-SameState req node = elim (Bool-cases (ltb_ℤ node.commit_index req.leader_commit)) [
  | inl up ↦
      let same =
        apply_to_state_machine-SameState
          (record node { commit_index = min_ℤ req.leader_commit (to_int (last_new_idx req)) }) in
      rw up record {
        config = same.config;
        role = same.role;
        log = same.log;
        hard_state = same.hard_state;
        commit_index = same.commit_index;
        leader_id = same.leader_id;
        votes_received = same.votes_received;
        next_index = same.next_index;
        match_index = same.match_index;
        running = same.running;
        timer = same.timer;
      }
  | inr stays ↦ rw stays record {
    config = refl;
    role = refl;
    log = refl;
    hard_state = refl;
    commit_index = refl;
    leader_id = refl;
    votes_received = refl;
    next_index = refl;
    match_index = refl;
    running = refl;
    timer = refl;
  }
]
