-- ===== src/Raft/Progress.antt =====
-- src/raft.c: the term, the last applied index and the configuration from one step to the next.
pub mod Loop
use raft_research.Prelude.{
  ℕ, zero, suc, ◌+◌, ◌≤◌, ◌^◌, ◌<◌, ◌≡◌, refl, ◌∙◌, List, [], ◌∷◌, if◌then◌else◌, ltb, Option, none,
  some, arith, Bool-cases, inl, inr,
}
use Prim.Native.Nat.{max}
use raft_research.Prelude.Int.{
  ℤ, pos, negsuc, ◌≤ℤ◌, ◌+ℤ◌, uint32_max, ltb_ℤ, to_int, to_u32, to_u32-to_int,
}
use raft_research.Rpc.Messages.{
  AppendEntriesReq, AppendEntriesRes, RequestVoteReq, RequestVoteRes, ProcReq,
}
use raft_research.Raft.Node.{RaftNode, term_word, append_log_entry}
use raft_research.Raft.Timers.{
  set_fault_detect_timer, set_election_timer, set_heartbeat_timer, telemetry_log,
}
use raft_research.Raft.Send.{broadcast_request_vote, broadcast_append_entries, send_heartbeats}
use raft_research.Raft.Roles.{become_follower, become_candidate, become_leader, start_election}
use raft_research.Raft.Apply.{
  answer_client, apply_entry, apply_one, apply_rounds, apply_to_state_machine,
}
use raft_research.Raft.Append.{
  accept_leader, record_heartbeat, follow_commit, last_new_idx, append_entries_to,
  replicate_entries, handle_append_entries_request,
}
use raft_research.Raft.Replicate.{
  commit_step, commit_rounds, advance_commit, record_match, step_back,
  handle_append_entries_response,
}
use raft_research.Raft.Vote.{
  answer_vote, handle_request_vote_request, count_vote, handle_request_vote_response,
}
use raft_research.Raft.Client.{handle_proc_request}

-- The term is a uint32_t.
abbrev pub HasTerm : RaftNode → Type 0
HasTerm node = node.hard_state.current_term < 2 ^ 32

pub record Progress (a b : RaftNode) : Type 0 where
  pub term_le : a.hard_state.current_term ≤ b.hard_state.current_term
  pub term_fits : b.hard_state.current_term ≤ max a.hard_state.current_term uint32_max
  pub applied_le : a.last_applied ≤ℤ b.last_applied
  pub same_config : b.config ≡ a.config

pub Progress-refl : (a : RaftNode) → Progress a a
Progress-refl a = record {
  term_le = omega arith;
  term_fits = omega arith;
  applied_le = omega arith;
  same_config = refl;
}

pub Progress-trans : {a b c : RaftNode} → Progress a b → Progress b c → Progress a c
Progress-trans p q = record {
  term_le = omega arith;
  term_fits = omega arith;
  applied_le = omega arith;
  same_config = q.same_config ∙ p.same_config;
}

pub become_follower-Progress :
    (term id : ℕ) (node : RaftNode)
    → node.hard_state.current_term ≤ term
    → term < 2 ^ 32
    → Progress node (become_follower term id node)
unfolding become_follower
become_follower-Progress term id node h fits = record {
  term_le = h;
  term_fits = omega arith;
  applied_le = omega arith;
  same_config = refl;
}

pub start_election-Progress : (node : RaftNode) → HasTerm node → Progress node (start_election node)
unfolding start_election
start_election-Progress node h = ground arith

pub become_candidate-Progress :
    (node : RaftNode) → HasTerm node → Progress node (become_candidate node)
unfolding become_candidate start_election
become_candidate-Progress node h = ground arith

pub become_leader-Progress : (node : RaftNode) → Progress node (become_leader node)
unfolding become_leader
become_leader-Progress node = ground arith

apply_one-Progress : (node : RaftNode) → Progress node (apply_one node)
unfolding apply_one apply_entry answer_client
apply_one-Progress node = ground arith

apply_rounds-Progress : (n : ℕ) (node : RaftNode) → Progress node (apply_rounds n node)
unfolding apply_rounds
apply_rounds-Progress zero node = Progress-refl node
apply_rounds-Progress (suc n) node =
    let more =
      Progress-trans (apply_one-Progress node) (apply_rounds-Progress n (apply_one node)) in
    elim (Bool-cases (ltb_ℤ node.last_applied node.commit_index)) [
      | inl goes ↦ rw goes more
      | inr done ↦ rw done (Progress-refl node)
    ]

pub apply_to_state_machine-Progress :
    (node : RaftNode) → Progress node (apply_to_state_machine node)
unfolding apply_to_state_machine
apply_to_state_machine-Progress node = apply_rounds-Progress _ node

-- A change of the commit index before entries are applied.
follow_commit-Progress :
    (req : AppendEntriesReq) (node : RaftNode) → Progress node (follow_commit req node)
unfolding follow_commit
follow_commit-Progress req node = ground (
  arith,
  apply_to_state_machine-Progress (record node {
    commit_index =
        if ltb_ℤ req.leader_commit (to_int (last_new_idx req))
        then req.leader_commit
        else to_int (last_new_idx req);
  }),
)

replicate_entries-Progress :
    (req : AppendEntriesReq) (t : ℕ) (node : RaftNode)
    → Progress node (replicate_entries req t node)
unfolding replicate_entries append_entries_to
replicate_entries-Progress req t node =
    ground (arith, follow_commit-Progress req (append_entries_to req node))

accept_leader-Progress :
    (req : AppendEntriesReq) (node : RaftNode)
    → node.hard_state.current_term ≤ req.term
    → req.term < 2 ^ 32
    → Progress node (accept_leader req node.hard_state.current_term node)
unfolding accept_leader
accept_leader-Progress req node h fits =
    ground (arith, become_follower-Progress req.term req.leader_id node)

record_heartbeat-Progress :
    (req : AppendEntriesReq) (t : ℕ) (node : RaftNode) → Progress node (record_heartbeat req t node)
unfolding record_heartbeat
record_heartbeat-Progress req t node = ground arith

set_fault_detect_timer-Progress : (node : RaftNode) → Progress node (set_fault_detect_timer node)
unfolding set_fault_detect_timer
set_fault_detect_timer-Progress node = record {
  term_le = omega arith;
  term_fits = omega arith;
  applied_le = omega arith;
  same_config = refl;
}

-- The part after the leader is accepted.
follow_leader-Progress :
    (req : AppendEntriesReq) (t : ℕ) (node : RaftNode)
    → Progress node (replicate_entries req t (set_fault_detect_timer (record_heartbeat req t node)))
follow_leader-Progress req t node = Progress-trans (record_heartbeat-Progress req t node) (
    Progress-trans (set_fault_detect_timer-Progress (record_heartbeat req t node))
      (replicate_entries-Progress req t (set_fault_detect_timer (record_heartbeat req t node))))

word_of_term :
    (node : RaftNode)
    → HasTerm node
    → to_u32 (to_int node.hard_state.current_term) ≡ node.hard_state.current_term
word_of_term node h = to_u32-to_int node.hard_state.current_term h

pub append_entries_request-Progress :
    (req : AppendEntriesReq) (node : RaftNode)
    → HasTerm node
    → req.term < 2 ^ 32
    → Progress node (handle_append_entries_request req node)
unfolding handle_append_entries_request
append_entries_request-Progress req node h fits = rw (word_of_term node h) (
    ground (
      arith,
      accept_leader-Progress req node,
      follow_leader-Progress req node.hard_state.current_term
          (accept_leader req node.hard_state.current_term node),
    ))

commit_rounds-Progress :
    (t k : ℕ) (n : ℤ) (node : RaftNode) → Progress node (commit_rounds t k n node)
unfolding commit_rounds commit_step
commit_rounds-Progress t zero n node = Progress-refl node
commit_rounds-Progress t (suc k) n node =
    ground (arith, commit_rounds-Progress t k (n +ℤ pos 1) (commit_step t n node))

commit_and_apply-Progress :
    (t : ℕ) (node : RaftNode) → Progress node (apply_to_state_machine (advance_commit t node))
unfolding advance_commit
commit_and_apply-Progress t node =
    Progress-trans (commit_rounds-Progress t _ _ node)
      (apply_to_state_machine-Progress (advance_commit t node))

pub append_entries_response-Progress :
    (src : ℕ) (resp : AppendEntriesRes) (node : RaftNode)
    → HasTerm node
    → resp.term < 2 ^ 32
    → Progress node (handle_append_entries_response src resp node)
unfolding handle_append_entries_response record_match step_back
append_entries_response-Progress src resp node h fits = ground (
  arith,
  word_of_term node h,
  become_follower-Progress resp.term src node,
  commit_and_apply-Progress (term_word node) (record_match src resp.new_match_index node),
)

pub request_vote_request-Progress :
    (src : ℕ) (req : RequestVoteReq) (node : RaftNode)
    → HasTerm node
    → req.term < 2 ^ 32
    → Progress node (handle_request_vote_request src req node)
unfolding handle_request_vote_request answer_vote set_election_timer
request_vote_request-Progress src req node h fits =
    ground (arith, become_follower-Progress req.term src node)

pub request_vote_response-Progress :
    (src : ℕ) (resp : RequestVoteRes) (node : RaftNode)
    → HasTerm node
    → resp.term < 2 ^ 32
    → Progress node (handle_request_vote_response src resp node)
unfolding handle_request_vote_response count_vote
request_vote_response-Progress src resp node h fits = ground (
  arith,
  become_follower-Progress resp.term src node,
  become_leader-Progress (record node { votes_received = node.votes_received + 1 }),
)

pub proc_request-Progress :
    (req : ProcReq) (src : ℕ) (node : RaftNode) → Progress node (handle_proc_request req src node)
unfolding handle_proc_request append_log_entry broadcast_append_entries
proc_request-Progress req src node = ground arith
