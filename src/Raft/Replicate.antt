-- ===== src/Raft/Replicate.antt =====
-- src/raft.c, `handle_append_entries_response`: a leader learns what a follower has, and commits.
pub mod Handle
pub mod Commit
use raft_research.Prelude.{
  ℕ, zero, suc, ◌+◌, ◌-◌, ◌/◌, ◌<◌, ◌≡◌, List, Bool, true, false, not, ◌&&◌, ◌||◌, get_or, set, ltb,
  ◌==◌, if◌then◌else◌,
}
use raft_research.Prelude.Int.{ℤ, pos, negsuc, to_int, to_u32, sub32, ◌+ℤ◌, distance, ltb_ℤ, leb_ℤ}
use raft_research.Store.{Log, log_length}
use raft_research.Rpc.Messages.{AppendEntriesRes}
use raft_research.Raft.Node.{RaftNode, is_leader, term_word, raft_get_log_term}
use raft_research.Raft.Roles.{become_follower}
use raft_research.Raft.Apply.{apply_to_state_machine}

-- How many of the other nodes have entry `n`, by `match_index`; `k` nodes are left, from `i` on.
unfoldable pub count_matches : List ℤ → ℕ → ℤ → ℕ → ℕ → ℕ
count_matches match_index id n zero i = 0
count_matches match_index id n (suc k) i =
    let rest = count_matches match_index id n k (i + 1) in
    if not (i == id) && leb_ℤ n (get_or match_index i (negsuc 0)) then rest + 1 else rest

-- A majority of the nodes has entry `n`, this one included.
abbrev pub has_majority : RaftNode → ℤ → Bool
has_majority node n =
    ltb (node.config.num_nodes / 2)
      (1 + count_matches node.match_index node.config.id n node.config.num_nodes 0)

-- One round of the loop over `n`: an entry of the current term that a majority has is committed.
unfoldable pub commit_step : ℕ → ℤ → RaftNode → RaftNode
commit_step cur_term n node = record node {
  commit_index =
      if raft_get_log_term node.log n == cur_term && has_majority node n
      then n
      else node.commit_index;
}

-- `k` rounds are left, from `n` on.
unfoldable pub commit_rounds : ℕ → ℕ → ℤ → RaftNode → RaftNode
commit_rounds cur_term zero n node = node
commit_rounds cur_term (suc k) n node =
    commit_rounds cur_term k (n +ℤ pos 1) (commit_step cur_term n node)

-- `for (n = commit_index + 1; n < log_len; n++)`
unfoldable pub advance_commit : ℕ → RaftNode → RaftNode
advance_commit cur_term node =
    let start = node.commit_index +ℤ pos 1 in
    commit_rounds cur_term (distance start (log_length node.log)) start node

-- A write past the end of the two arrays changes nothing here; in C it is undefined.
unfoldable pub record_match : ℕ → ℕ → RaftNode → RaftNode
record_match src_id new_match_index node = record node {
  match_index = set node.match_index src_id (to_int new_match_index);
  next_index = set node.next_index src_id (to_u32 (log_length node.log));
}

unfoldable pub step_back : ℕ → RaftNode → RaftNode
step_back src_id node =
    let next = get_or node.next_index src_id 0 in
    record node {
      next_index = if ltb 0 next then set node.next_index src_id (next - 1) else node.next_index;
    }

unfoldable pub handle_append_entries_response : ℕ → AppendEntriesRes → RaftNode → RaftNode
handle_append_entries_response src_id resp node =
    let cur_term = term_word node in
    if ltb cur_term resp.term
    then become_follower resp.term src_id node
    else if not (is_leader node.role) || ltb resp.term cur_term
    then node
    else if not (resp.success == 0)
    then apply_to_state_machine
        (advance_commit cur_term (record_match src_id resp.new_match_index node))
    else step_back src_id node
