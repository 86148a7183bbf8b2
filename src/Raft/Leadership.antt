-- ===== src/Raft/Leadership.antt =====
-- src/raft.c: what a message does to the leadership and to the vote of a node.
pub mod Messages
pub mod Run
pub mod Quorum
pub mod Count
pub mod Hold
pub mod Own
pub mod Ballots
pub mod Silent
pub mod Recorded
pub mod Sent
pub mod Votes
pub mod Safety
pub mod Turn
pub mod Elected
use raft_research.Raft.Append.Follow.{followed, follow_commit-SameState}
use raft_research.Store.Bounds.{natural, word}
use raft_research.Prelude.{
  ℕ, zero, suc, ◌+◌, ◌/◌, ◌<◌, ◌^◌, ◌≡◌, refl, ◌∙◌, ◌⊎◌, inl, inr, List, Option, none, some, Bool,
  true, false, not, arith, ltb, ◌==◌, if◌then◌else◌, Bool-cases,
}
use raft_research.Prelude.Int.{ℤ, pos, ◌+ℤ◌, ltb_ℤ, to_int, to_u32}
use raft_research.Store.{HardState, get_term, no_vote}
use raft_research.Transport.{Pkt}
use raft_research.Rpc.Messages.{
  AppendEntriesReq, AppendEntriesRes, RequestVoteReq, RequestVoteRes, ProcReq, rpc_resp_req_vote,
}
use raft_research.Raft.Node.{
  RaftNode, RaftRole, follower, candidate, leader, is_leader, is_candidate, term_word,
  append_log_entry,
}
use raft_research.Raft.Timers.{
  set_fault_detect_timer, set_election_timer, set_heartbeat_timer, telemetry_log,
}
use raft_research.Raft.Send.{broadcast_append_entries, send_heartbeats}
use raft_research.Raft.Roles.{become_follower, become_leader}
use raft_research.Raft.Apply.{apply_to_state_machine}
use raft_research.Raft.Apply.Frame.{apply_to_state_machine-SameState}
use raft_research.Raft.Append.{
  accept_leader, record_heartbeat, follow_commit, last_new_idx, append_entries_to,
  replicate_entries, handle_append_entries_request,
}
use raft_research.Raft.Append.Handle.{prepared}
use raft_research.Raft.Replicate.{
  commit_step, commit_rounds, advance_commit, record_match, step_back,
  handle_append_entries_response,
}
use raft_research.Raft.Vote.{
  answer_vote, count_vote, handle_request_vote_request, handle_request_vote_response,
}
use raft_research.Raft.Vote.Grant.{IsNatural, vote_is_final}
use raft_research.Raft.Client.{handle_proc_request}

-- A candidate has been candidate, and a leader leader, in this term; a node that stays in its term
-- keeps a vote it has given, unless it was a candidate.
pub record Keeps (a b : RaftNode) : Type 0 where
  pub stands : is_candidate b.role ≡ true → is_candidate a.role ≡ true
  pub leads : is_leader b.role ≡ true → is_leader a.role ≡ true
  pub term : is_leader b.role ≡ true → b.hard_state.current_term ≡ a.hard_state.current_term
  pub vote :
      b.hard_state.current_term ≡ a.hard_state.current_term
      → (b.hard_state.voted_for ≡ a.hard_state.voted_for)
        ⊎ (a.hard_state.voted_for ≡ no_vote)
        ⊎ (is_candidate a.role ≡ true)

-- A candidate has been candidate, and a leader leader, in this term, with the same votes counted.
pub record Counts (a b : RaftNode) : Type 0 where
  pub candidate :
      is_candidate b.role ≡ true
      → (is_candidate a.role ≡ true)
        × (b.hard_state.current_term ≡ a.hard_state.current_term)
        × (b.votes_received ≡ a.votes_received)
  pub leader :
      is_leader b.role ≡ true
      → (is_leader a.role ≡ true) × (b.hard_state.current_term ≡ a.hard_state.current_term)

-- The role, the term, the vote and the votes counted are the same.
pub record SameCore (a b : RaftNode) : Type 0 where
  pub role : b.role ≡ a.role
  pub hard_state : b.hard_state ≡ a.hard_state
  pub votes : b.votes_received ≡ a.votes_received

Keeps-refl : (a : RaftNode) → Keeps a a
Keeps-refl a = record { stands = λ c. c; leads = λ l. l; term = λ l. refl; vote = λ t. inl refl }

Keeps-core : (a b c : RaftNode) → Keeps a b → SameCore b c → Keeps a c
Keeps-core a b c k s = ground (arith, k, s)

pub apply-SameCore : (node : RaftNode) → SameCore node (apply_to_state_machine node)
apply-SameCore node =
    let same = apply_to_state_machine-SameState node in
    record { role = same.role; hard_state = same.hard_state; votes = same.votes_received }

follow_commit-SameCore :
    (req : AppendEntriesReq) (node : RaftNode) → SameCore node (follow_commit req node)
follow_commit-SameCore req node =
    let same = follow_commit-SameState req node in
    record { role = same.role; hard_state = same.hard_state; votes = same.votes_received }

pub replicate_entries-SameCore :
    (req : AppendEntriesReq) (cur_term : ℕ) (node : RaftNode)
    → SameCore node (replicate_entries req cur_term node)
unfolding replicate_entries append_entries_to
replicate_entries-SameCore req cur_term node =
    ground (arith, follow_commit-SameCore req (append_entries_to req node))

prepared-Keeps :
    (req : AppendEntriesReq) (node : RaftNode)
    → node.hard_state.current_term < 2 ^ 31
    → ltb req.term node.hard_state.current_term ≡ false
    → Keeps node (prepared req node.hard_state.current_term node)
unfolding accept_leader become_follower record_heartbeat set_fault_detect_timer telemetry_log
prepared-Keeps req node small current = ground arith

pub append_entries_request-Keeps :
    (req : AppendEntriesReq) (node : RaftNode)
    → node.hard_state.current_term < 2 ^ 31
    → Keeps node (handle_append_entries_request req node)
unfolding handle_append_entries_request
append_entries_request-Keeps req node small =
    elim (Bool-cases (ltb req.term node.hard_state.current_term)) [
      | inl old ↦
          rw
            (
              natural node.hard_state.current_term small,
              word node.hard_state.current_term small,
              old,
            )
            record { stands = λ c. c; leads = λ l. l; term = λ l. refl; vote = λ t. inl refl }
      | inr current ↦
          let ready = prepared req node.hard_state.current_term node in
          rw
            (
              natural node.hard_state.current_term small,
              word node.hard_state.current_term small,
              current,
            )
            (Keeps-core node ready (replicate_entries req node.hard_state.current_term ready)
              (prepared-Keeps req node small current)
              (replicate_entries-SameCore req node.hard_state.current_term ready))
    ]

rounds-SameCore :
    (cur_term k : ℕ) (n : ℤ) (node : RaftNode) → SameCore node (commit_rounds cur_term k n node)
unfolding commit_rounds commit_step
rounds-SameCore cur_term zero n node = record { role = refl; hard_state = refl; votes = refl }
rounds-SameCore cur_term (suc k) n node =
    let rest = rounds-SameCore cur_term k (n +ℤ pos 1) (commit_step cur_term n node) in
    record { role = rest.role; hard_state = rest.hard_state; votes = rest.votes }

pub advance_commit-SameCore :
    (cur_term : ℕ) (node : RaftNode) → SameCore node (advance_commit cur_term node)
unfolding advance_commit
advance_commit-SameCore cur_term node = rounds-SameCore cur_term _ _ node

pub append_entries_response-Keeps :
    (src_id : ℕ) (resp : AppendEntriesRes) (node : RaftNode)
    → node.hard_state.current_term < 2 ^ 31
    → Keeps node (handle_append_entries_response src_id resp node)
unfolding handle_append_entries_response become_follower set_fault_detect_timer telemetry_log
    record_match step_back
append_entries_response-Keeps src_id resp node small =
    let w = word node.hard_state.current_term small in
    ground (
      arith,
      w,
      apply-SameCore
          (advance_commit (term_word node) (record_match src_id resp.new_match_index node)),
      advance_commit-SameCore (term_word node) (record_match src_id resp.new_match_index node),
    )

pub answer_vote-core :
    (req : RequestVoteReq) (cur_term : ℕ) (node : RaftNode)
    → ((answer_vote req cur_term node).role ≡ node.role)
      × ((answer_vote req cur_term node).hard_state.current_term ≡ node.hard_state.current_term)
      × ((answer_vote req cur_term node).votes_received ≡ node.votes_received)
unfolding answer_vote set_election_timer
answer_vote-core req cur_term node = ground arith

request_vote_request-leads :
    (src_id : ℕ) (req : RequestVoteReq) (node : RaftNode)
    → IsNatural node.hard_state
    → let b = handle_request_vote_request src_id req node in
      is_leader b.role ≡ true
      → (is_leader node.role ≡ true) × (b.hard_state.current_term ≡ node.hard_state.current_term)
unfolding handle_request_vote_request become_follower set_fault_detect_timer telemetry_log
request_vote_request-leads src_id req node small = ground (
  arith,
  answer_vote-core req req.term (become_follower req.term src_id node),
  answer_vote-core req node.hard_state.current_term node,
  word node.hard_state.current_term small.term,
)

request_vote_request-stands :
    (src_id : ℕ) (req : RequestVoteReq) (node : RaftNode)
    → IsNatural node.hard_state
    → is_candidate (handle_request_vote_request src_id req node).role ≡ true
    → is_candidate node.role ≡ true
unfolding handle_request_vote_request become_follower set_fault_detect_timer telemetry_log
request_vote_request-stands src_id req node small = ground (
  arith,
  answer_vote-core req req.term (become_follower req.term src_id node),
  answer_vote-core req node.hard_state.current_term node,
  word node.hard_state.current_term small.term,
)

pub request_vote_request-Keeps :
    (src_id : ℕ) (req : RequestVoteReq) (node : RaftNode)
    → IsNatural node.hard_state
    → Keeps node (handle_request_vote_request src_id req node)
request_vote_request-Keeps src_id req node small = record {
  stands = request_vote_request-stands src_id req node small;
  leads = λ l. (request_vote_request-leads src_id req node small l).0;
  term = λ l. (request_vote_request-leads src_id req node small l).1;
  vote = λ t. elim (Bool-cases (node.hard_state.voted_for == no_vote)) [
    | inl free ↦ inr (inl (ground arith))
    | inr given ↦ inl (vote_is_final src_id req node small (ground arith) t)
  ];
}

pub proc_request-Keeps :
    (req : ProcReq) (src_id : ℕ) (node : RaftNode)
    → Keeps node (handle_proc_request req src_id node)
unfolding handle_proc_request append_log_entry broadcast_append_entries
proc_request-Keeps req src_id node = ground arith
