-- ===== src/Raft/Leadership/Messages.antt =====
-- src/raft.c, `raft_handle_rpc`: how a message can make a node leader, or change its vote.
use raft_research.Store.Bounds.{word}
use raft_research.Prelude.{
  ℕ, ◌+◌, ◌/◌, ◌<◌, ◌^◌, ◌≡◌, refl, ◌⊎◌, inl, inr, some, true, not, arith, ◌==◌,
}
use raft_research.Store.{no_vote}
use raft_research.Transport.{Pkt}
use raft_research.Rpc.Messages.{RequestVoteRes}
use raft_research.Rpc.{
  unpack_append_entries_res, unpack_request_vote_req, unpack_request_vote_res, unpack_proc_req,
  unpack_proc_res,
}
use raft_research.Rpc.AppendEntries.{unpack_append_entries_req}
use raft_research.Raft.Node.{RaftNode, is_leader, is_candidate}
use raft_research.Raft.Timers.{set_fault_detect_timer, set_heartbeat_timer, telemetry_log}
use raft_research.Raft.Send.{send_heartbeats}
use raft_research.Raft.Roles.{become_follower, become_leader}
use raft_research.Raft.Append.{handle_append_entries_request}
use raft_research.Raft.Replicate.{handle_append_entries_response}
use raft_research.Raft.Vote.{count_vote, handle_request_vote_request, handle_request_vote_response}
use raft_research.Raft.Vote.Grant.{IsNatural}
use raft_research.Raft.Client.{handle_proc_request}
use raft_research.Raft.Dispatch.{on_success-cases, raft_handle_rpc}
use raft_research.Raft.Leadership.{
  Keeps, append_entries_request-Keeps, append_entries_response-Keeps, request_vote_request-Keeps,
  proc_request-Keeps,
}

-- The vote that `resp` brings to candidate `a`, in its term, makes the votes for it a majority.
pub record Wins (resp : RequestVoteRes) (a : RaftNode) : Type 0 where
  pub candidate : is_candidate a.role ≡ true
  pub term : resp.term ≡ a.hard_state.current_term
  pub granted : not (resp.vote_granted == 0) ≡ true
  pub majority : a.config.num_nodes / 2 < a.votes_received + 1

-- As `Keeps`, but for the majority of votes in the packet `pkt`.
pub record KeepsOrWins (pkt : Pkt) (a b : RaftNode) : Type 0 where
  pub stands : is_candidate b.role ≡ true → is_candidate a.role ≡ true
  pub leads :
      is_leader b.role ≡ true
      → (b.hard_state.current_term ≡ a.hard_state.current_term)
        × ((is_leader a.role ≡ true)
            ⊎ ((m : RequestVoteRes) × (unpack_request_vote_res pkt ≡ some m) × Wins m a))
  pub vote :
      b.hard_state.current_term ≡ a.hard_state.current_term
      → (b.hard_state.voted_for ≡ a.hard_state.voted_for)
        ⊎ (a.hard_state.voted_for ≡ no_vote)
        ⊎ (is_candidate a.role ≡ true)

of_Keeps : (pkt : Pkt) (a b : RaftNode) → Keeps a b → KeepsOrWins pkt a b
of_Keeps pkt a b k = record {
  stands = k.stands;
  leads = λ l. (k.term l, inl (k.leads l));
  vote = k.vote;
}

of_refl : (pkt : Pkt) (a : RaftNode) → KeepsOrWins pkt a a
of_refl pkt a = record { stands = λ c. c; leads = λ l. (refl, inl l); vote = λ t. inl refl }

response-leads :
    (src_id : ℕ) (resp : RequestVoteRes) (node : RaftNode)
    → node.hard_state.current_term < 2 ^ 31
    → let b = handle_request_vote_response src_id resp node in
      is_leader b.role ≡ true
      → (b.hard_state.current_term ≡ node.hard_state.current_term)
        × ((is_leader node.role ≡ true) ⊎ Wins resp node)
unfolding handle_request_vote_response become_follower set_fault_detect_timer telemetry_log
    count_vote become_leader set_heartbeat_timer send_heartbeats
response-leads src_id resp node small =
    let w = word node.hard_state.current_term small in ground (arith, w)

response-stands :
    (src_id : ℕ) (resp : RequestVoteRes) (node : RaftNode)
    → node.hard_state.current_term < 2 ^ 31
    → is_candidate (handle_request_vote_response src_id resp node).role ≡ true
    → is_candidate node.role ≡ true
unfolding handle_request_vote_response become_follower set_fault_detect_timer telemetry_log
    count_vote become_leader set_heartbeat_timer send_heartbeats
response-stands src_id resp node small =
    let w = word node.hard_state.current_term small in ground (arith, w)

response-vote :
    (src_id : ℕ) (resp : RequestVoteRes) (node : RaftNode)
    → node.hard_state.current_term < 2 ^ 31
    → let b = handle_request_vote_response src_id resp node in
      b.hard_state.current_term ≡ node.hard_state.current_term
      → b.hard_state.voted_for ≡ node.hard_state.voted_for
unfolding handle_request_vote_response become_follower set_fault_detect_timer telemetry_log
    count_vote become_leader set_heartbeat_timer send_heartbeats
response-vote src_id resp node small =
    let w = word node.hard_state.current_term small in ground (arith, w)

response-KeepsOrWins :
    (pkt : Pkt) (m : RequestVoteRes) (node : RaftNode)
    → node.hard_state.current_term < 2 ^ 31
    → unpack_request_vote_res pkt ≡ some m
    → KeepsOrWins pkt node (handle_request_vote_response pkt.header.src m node)
response-KeepsOrWins pkt m node small e = record {
  stands = response-stands pkt.header.src m node small;
  leads = λ l.
      let (same, how) = response-leads pkt.header.src m node small l in
      elim how [ inl led ↦ (same, inl led) | inr won ↦ (same, inr (m, e, won)) ];
  vote = λ t. inl (response-vote pkt.header.src m node small t);
}

pub raft_handle_rpc-KeepsOrWins :
    (pkt : Pkt) (node : RaftNode)
    → IsNatural node.hard_state
    → KeepsOrWins pkt node (raft_handle_rpc pkt node)
unfolding raft_handle_rpc
raft_handle_rpc-KeepsOrWins pkt node small = ground (
  arith,
  of_refl pkt node,
  on_success-cases (KeepsOrWins pkt node) (unpack_append_entries_req pkt)
      (λ m. handle_append_entries_request m node) node (of_refl pkt node)
      (λ m e. of_Keeps pkt node _ (append_entries_request-Keeps m node small.term)),
  on_success-cases (KeepsOrWins pkt node) (unpack_append_entries_res pkt)
      (λ m. handle_append_entries_response pkt.header.src m node) node (of_refl pkt node)
      (λ m e. of_Keeps pkt node _ (append_entries_response-Keeps pkt.header.src m node small.term)),
  on_success-cases (KeepsOrWins pkt node) (unpack_request_vote_req pkt)
      (λ m. handle_request_vote_request pkt.header.src m node) node (of_refl pkt node)
      (λ m e. of_Keeps pkt node _ (request_vote_request-Keeps pkt.header.src m node small)),
  on_success-cases (KeepsOrWins pkt node) (unpack_request_vote_res pkt)
      (λ m. handle_request_vote_response pkt.header.src m node) node (of_refl pkt node)
      (λ m e. response-KeepsOrWins pkt m node small.term e),
  on_success-cases (KeepsOrWins pkt node) (unpack_proc_req pkt)
      (λ m. handle_proc_request m pkt.header.src node) node (of_refl pkt node)
      (λ m e. of_Keeps pkt node _ (proc_request-Keeps m pkt.header.src node)),
  on_success-cases (KeepsOrWins pkt node) (unpack_proc_res pkt) (λ m. node) node (of_refl pkt node)
      (λ m e. of_refl pkt node),
)

-- A node that is leader after a message is in the term it was in before. It was leader then too; or
-- it was a candidate in that term, and the message is a vote response of the term that grants the
-- vote, with which the votes it has counted are more than half of the nodes. The two persistent
-- fields are below 2^31.
pub raft_handle_rpc-leads :
    (pkt : Pkt) (node : RaftNode)
    → IsNatural node.hard_state
    → is_leader (raft_handle_rpc pkt node).role ≡ true
    → ((raft_handle_rpc pkt node).hard_state.current_term ≡ node.hard_state.current_term)
      × ((is_leader node.role ≡ true)
          ⊎ ((m : RequestVoteRes) × (unpack_request_vote_res pkt ≡ some m) × Wins m node))
raft_handle_rpc-leads pkt node small = (raft_handle_rpc-KeepsOrWins pkt node small).leads

-- A node that is in the same term after a message as before has the same vote, unless it had not
-- voted or was a candidate. The two persistent fields are below 2^31.
pub raft_handle_rpc-vote :
    (pkt : Pkt) (node : RaftNode)
    → IsNatural node.hard_state
    → (raft_handle_rpc pkt node).hard_state.current_term ≡ node.hard_state.current_term
    → ((raft_handle_rpc pkt node).hard_state.voted_for ≡ node.hard_state.voted_for)
      ⊎ (node.hard_state.voted_for ≡ no_vote)
      ⊎ (is_candidate node.role ≡ true)
raft_handle_rpc-vote pkt node small = (raft_handle_rpc-KeepsOrWins pkt node small).vote
