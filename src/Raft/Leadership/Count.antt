-- ===== src/Raft/Leadership/Count.antt =====
-- src/raft.c: what each message does to the votes that a candidate has counted.
use raft_research.Store.Bounds.{natural, word}
use raft_research.Prelude.{
  ℕ, ◌+◌, ◌/◌, ◌≤◌, ◌<◌, ◌^◌, ◌≡◌, refl, ◌⊎◌, inl, inr, true, false, not, ◌&&◌, arith, ltb, ◌==◌,
  if◌then◌else◌, Bool-cases,
}
use raft_research.Rpc.Messages.{
  AppendEntriesReq, AppendEntriesRes, RequestVoteReq, RequestVoteRes, ProcReq,
}
use raft_research.Raft.Node.{RaftNode, is_leader, is_candidate, term_word, append_log_entry}
use raft_research.Raft.Timers.{set_fault_detect_timer, set_heartbeat_timer, telemetry_log}
use raft_research.Raft.Send.{broadcast_append_entries, send_heartbeats}
use raft_research.Raft.Roles.{become_follower, become_leader}
use raft_research.Raft.Append.{accept_leader, record_heartbeat, handle_append_entries_request}
use raft_research.Raft.Append.Handle.{prepared}
use raft_research.Raft.Replicate.{
  advance_commit, record_match, step_back, handle_append_entries_response,
}
use raft_research.Raft.Vote.{count_vote, handle_request_vote_request, handle_request_vote_response}
use raft_research.Raft.Client.{handle_proc_request}
use raft_research.Raft.Leadership.{
  Counts, SameCore, apply-SameCore, replicate_entries-SameCore, advance_commit-SameCore,
  answer_vote-core,
}

pub Counts-refl : (a : RaftNode) → Counts a a
Counts-refl a = record { candidate = λ c. (c, refl, refl); leader = λ l. (l, refl) }

Counts-core : (a b c : RaftNode) → Counts a b → SameCore b c → Counts a c
Counts-core a b c k s = ground (arith, k, s)

prepared-Counts :
    (req : AppendEntriesReq) (node : RaftNode)
    → node.hard_state.current_term < 2 ^ 31
    → ltb req.term node.hard_state.current_term ≡ false
    → Counts node (prepared req node.hard_state.current_term node)
unfolding accept_leader become_follower record_heartbeat set_fault_detect_timer telemetry_log
prepared-Counts req node small current = ground arith

pub append_entries_request-Counts :
    (req : AppendEntriesReq) (node : RaftNode)
    → node.hard_state.current_term < 2 ^ 31
    → Counts node (handle_append_entries_request req node)
unfolding handle_append_entries_request
append_entries_request-Counts req node small =
    let cur_term = node.hard_state.current_term in
    let n = natural cur_term small in
    let w = word cur_term small in
    elim (Bool-cases (ltb req.term cur_term)) [
      | inl old ↦
          rw (n, w, old) record { candidate = λ c. (c, refl, refl); leader = λ l. (l, refl) }
      | inr current ↦
          rw (n, w, current)
            (Counts-core node (prepared req cur_term node) _
              (prepared-Counts req node small current)
              (replicate_entries-SameCore req cur_term (prepared req cur_term node)))
    ]

pub append_entries_response-Counts :
    (src_id : ℕ) (resp : AppendEntriesRes) (node : RaftNode)
    → node.hard_state.current_term < 2 ^ 31
    → Counts node (handle_append_entries_response src_id resp node)
unfolding handle_append_entries_response become_follower set_fault_detect_timer telemetry_log
    record_match step_back
append_entries_response-Counts src_id resp node small =
    let matched = record_match src_id resp.new_match_index node in
    ground (
      arith,
      word node.hard_state.current_term small,
      apply-SameCore (advance_commit (term_word node) matched),
      advance_commit-SameCore (term_word node) matched,
    )

pub request_vote_request-Counts :
    (src_id : ℕ) (req : RequestVoteReq) (node : RaftNode)
    → node.hard_state.current_term < 2 ^ 31
    → Counts node (handle_request_vote_request src_id req node)
unfolding handle_request_vote_request become_follower set_fault_detect_timer telemetry_log
request_vote_request-Counts src_id req node small = ground (
  arith,
  answer_vote-core req req.term (become_follower req.term src_id node),
  answer_vote-core req node.hard_state.current_term node,
  word node.hard_state.current_term small,
)

pub proc_request-Counts :
    (req : ProcReq) (src_id : ℕ) (node : RaftNode)
    → Counts node (handle_proc_request req src_id node)
unfolding handle_proc_request append_log_entry broadcast_append_entries
proc_request-Counts req src_id node = ground arith

-- 1 for a response that grants a vote in the term, otherwise 0.
abbrev pub granted_in : ℕ → RequestVoteRes → ℕ
granted_in term resp = if resp.term == term && not (resp.vote_granted == 0) then 1 else 0

-- A candidate counts what the message grants, or stands anew; a leader has led, or wins with the vote.
pub record Tallies (granted : ℕ → ℕ) (a b : RaftNode) : Type 0 where
  pub candidate :
      is_candidate b.role ≡ true
      → ((is_candidate a.role ≡ true)
          × (b.hard_state.current_term ≡ a.hard_state.current_term)
          × (b.votes_received ≤ a.votes_received + granted a.hard_state.current_term))
        ⊎ (b.votes_received ≡ 1)
  pub leader :
      is_leader b.role ≡ true
      → (b.hard_state.current_term ≡ a.hard_state.current_term)
        × ((is_leader a.role ≡ true)
            ⊎ ((is_candidate a.role ≡ true)
                × (a.config.num_nodes / 2 < a.votes_received + granted a.hard_state.current_term)))

pub of_Counts : (granted : ℕ → ℕ) (a b : RaftNode) → Counts a b → Tallies granted a b
of_Counts granted a b k = record {
  candidate = λ c. let (was, same, votes) = k.candidate c in inl (was, same, omega (arith, votes));
  leader = λ l. let (was, same) = k.leader l in (same, inl was);
}

pub response-Tallies :
    (src_id : ℕ) (resp : RequestVoteRes) (node : RaftNode)
    → node.hard_state.current_term < 2 ^ 31
    → Tallies (λ term. granted_in term resp) node (handle_request_vote_response src_id resp node)
unfolding handle_request_vote_response become_follower set_fault_detect_timer telemetry_log
    count_vote become_leader set_heartbeat_timer send_heartbeats
response-Tallies src_id resp node small =
    let w = word node.hard_state.current_term small in ground (arith, w)
