-- ===== src/Raft/Leadership/Hold.antt =====
-- src/raft.c: what each message does to the vote of a candidate or leader, which is its own.
use raft_research.Store.Bounds.{natural, word}
use raft_research.Prelude.{
  ℕ, ◌<◌, ◌^◌, ◌≡◌, refl, ◌⊎◌, inl, inr, true, false, not, arith, ltb, ◌==◌, Bool-cases,
}
use raft_research.Store.{no_vote}
use raft_research.Rpc.Messages.{
  AppendEntriesReq, AppendEntriesRes, RequestVoteReq, RequestVoteRes, ProcReq,
}
use raft_research.Raft.Node.{RaftNode, is_follower, term_word, append_log_entry}
use raft_research.Raft.Timers.{set_fault_detect_timer, set_heartbeat_timer, telemetry_log}
use raft_research.Raft.Send.{broadcast_append_entries, send_heartbeats}
use raft_research.Raft.Roles.{become_follower, become_leader}
use raft_research.Raft.Append.{accept_leader, record_heartbeat, handle_append_entries_request}
use raft_research.Raft.Append.Handle.{prepared}
use raft_research.Raft.Replicate.{
  advance_commit, record_match, step_back, handle_append_entries_response,
}
use raft_research.Raft.Vote.{count_vote, handle_request_vote_request, handle_request_vote_response}
use raft_research.Raft.Vote.Grant.{vote_is_final}
use raft_research.Raft.Client.{handle_proc_request}
use raft_research.Raft.Leadership.{
  SameCore, apply-SameCore, replicate_entries-SameCore, advance_commit-SameCore, answer_vote-core,
}

-- A node that is no follower after a step was none before, with the same vote, or has voted for itself.
pub record Holds (a b : RaftNode) : Type 0 where
  pub up :
      is_follower b.role ≡ false
      → ((is_follower a.role ≡ false) × (b.hard_state.voted_for ≡ a.hard_state.voted_for))
        ⊎ (b.hard_state.voted_for ≡ a.config.id)

pub Holds-refl : (a : RaftNode) → Holds a a
Holds-refl a = record { up = λ u. inl (u, refl) }

Holds-core : (a b c : RaftNode) → Holds a b → SameCore b c → Holds a c
Holds-core a b c k s = ground (arith, k, s)

prepared-Holds :
    (req : AppendEntriesReq) (node : RaftNode)
    → node.hard_state.current_term < 2 ^ 31
    → ltb req.term node.hard_state.current_term ≡ false
    → Holds node (prepared req node.hard_state.current_term node)
unfolding accept_leader become_follower record_heartbeat set_fault_detect_timer telemetry_log
prepared-Holds req node small current = ground arith

pub append_entries_request-Holds :
    (req : AppendEntriesReq) (node : RaftNode)
    → node.hard_state.current_term < 2 ^ 31
    → Holds node (handle_append_entries_request req node)
unfolding handle_append_entries_request
append_entries_request-Holds req node small =
    let cur_term = node.hard_state.current_term in
    let n = natural cur_term small in
    let w = word cur_term small in
    elim (Bool-cases (ltb req.term cur_term)) [
      | inl old ↦ rw (n, w, old) record { up = λ u. inl (u, refl) }
      | inr current ↦
          rw (n, w, current)
            (Holds-core node (prepared req cur_term node) _ (prepared-Holds req node small current)
              (replicate_entries-SameCore req cur_term (prepared req cur_term node)))
    ]

pub append_entries_response-Holds :
    (src_id : ℕ) (resp : AppendEntriesRes) (node : RaftNode)
    → node.hard_state.current_term < 2 ^ 31
    → Holds node (handle_append_entries_response src_id resp node)
unfolding handle_append_entries_response become_follower set_fault_detect_timer telemetry_log
    record_match step_back
append_entries_response-Holds src_id resp node small =
    let matched = record_match src_id resp.new_match_index node in
    ground (
      arith,
      word node.hard_state.current_term small,
      apply-SameCore (advance_commit (term_word node) matched),
      advance_commit-SameCore (term_word node) matched,
    )

pub proc_request-Holds :
    (req : ProcReq) (src_id : ℕ) (node : RaftNode)
    → Holds node (handle_proc_request req src_id node)
unfolding handle_proc_request append_log_entry broadcast_append_entries
proc_request-Holds req src_id node = ground arith

pub response-Holds :
    (src_id : ℕ) (resp : RequestVoteRes) (node : RaftNode)
    → node.hard_state.current_term < 2 ^ 31
    → Holds node (handle_request_vote_response src_id resp node)
unfolding handle_request_vote_response become_follower set_fault_detect_timer telemetry_log
    count_vote become_leader set_heartbeat_timer send_heartbeats
response-Holds src_id resp node small =
    let w = word node.hard_state.current_term small in ground (arith, w)

-- A node that is no follower has a vote that is the id of a node.
abbrev pub HasOwn : RaftNode → Type 0
HasOwn node =
    is_follower node.role ≡ false
    → (node.hard_state.voted_for < 2 ^ 31) × (not (node.hard_state.voted_for == no_vote) ≡ true)

request-up :
    (src_id : ℕ) (req : RequestVoteReq) (node : RaftNode)
    → node.hard_state.current_term < 2 ^ 31
    → let b = handle_request_vote_request src_id req node in
      is_follower b.role ≡ false
      → (is_follower node.role ≡ false) × (b.hard_state.current_term ≡ node.hard_state.current_term)
unfolding handle_request_vote_request become_follower set_fault_detect_timer telemetry_log
request-up src_id req node small = ground (
  arith,
  answer_vote-core req req.term (become_follower req.term src_id node),
  answer_vote-core req node.hard_state.current_term node,
  word node.hard_state.current_term small,
)

pub request_vote_request-Holds :
    (src_id : ℕ) (req : RequestVoteReq) (node : RaftNode)
    → node.hard_state.current_term < 2 ^ 31
    → HasOwn node
    → Holds node (handle_request_vote_request src_id req node)
request_vote_request-Holds src_id req node small own = record {
  up = λ u.
      let (was, same) = request-up src_id req node small u in
      let (fits, given) = own was in
      inl (
        was,
        vote_is_final src_id req node (record { term = small; vote = fits }) (ground (arith, given))
            same,
      );
}
