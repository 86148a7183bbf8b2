-- ===== src/Tests/Election.antt =====
-- An election in a cluster of three nodes.
use raft_research.Prelude.{
  ℕ, zero, suc, ◌<◌, ◌≢◌, if◌then◌else◌, ◌≡◌, refl, subst, List, [], ◌∷◌, arith, ◌==◌,
}
use raft_research.Memory.{read_u32_be, write_u8, write_u32_be}
use raft_research.Transport.{Pkt, uninit_pkt}
use raft_research.Rpc.{
  pack_request_vote_req, pack_request_vote_res, unpack_request_vote_req, unpack_request_vote_res,
}
use raft_research.Rpc.Bounds.{IsBytes}
use raft_research.Raft.Node.{RaftNode, log_is_up_to_date, raft_get_log_term}
use raft_research.Raft.Timers.{
  set_fault_detect_timer, set_election_timer, set_heartbeat_timer, telemetry_log,
}
use raft_research.Raft.Send.{send_heartbeats, broadcast_request_vote}
use raft_research.Raft.Roles.{become_candidate, become_follower, become_leader, start_election}
use raft_research.Raft.Vote.{
  grants, answer_vote, count_vote, handle_request_vote_request, handle_request_vote_response,
}
use raft_research.Raft.Dispatch.{
  Received, packet, timed_out, raft_handle_rpc, follower_timeout, raft_handle_timeout,
  handle_received, run_turn, raft_run,
}
use raft_research.Raft.Progress.Loop.{AllBytes}
use raft_research.Raft.Leadership.Sent.{SentVote}
use raft_research.Raft.Leadership.Votes.{votes_from}
use raft_research.Raft.Leadership.Elected.{Backed, votes_in, raft_run-elected}
use raft_research.Raft.Leadership.Safety.{Member, Leads, election_safety}
use raft_research.Tests.Data.{whole, config, a_follower}

abbrev nodes : ℕ → RaftNode
nodes i = record a_follower { config = record config { id = i } }

-- Node 0 asks node 1 for its vote in term 3.
abbrev request : Pkt
request =
    (pack_request_vote_req uninit_pkt 1 0
      (record { term = 3; candidate_id = 0; last_log_idx = 2; last_log_term = 2 })).1

abbrev response : Pkt
response = (pack_request_vote_res uninit_pkt 0 1 (record { term = 3; vote_granted = 1 })).1

abbrev runs : ℕ → List Received
runs zero = timed_out ∷ packet response ∷ []
runs (suc i) = packet request ∷ []

request-IsBytes : IsBytes request.payload
unfolding pack_request_vote_req write_u32_be
request-IsBytes p = ground arith

response-IsBytes : IsBytes response.payload
unfolding pack_request_vote_res write_u32_be write_u8
response-IsBytes p = ground arith

runs-AllBytes : (i : ℕ) → AllBytes whole (runs i)
runs-AllBytes zero = (tt, (response-IsBytes, tt))
runs-AllBytes (suc i) = (request-IsBytes, tt)

nodes-Member : (i : ℕ) → Member 3 i (nodes i)
nodes-Member i = record { id = refl; size = refl; follows = refl; term_fits = omega arith }

node_1-SentVote : SentVote whole (runs 1) (nodes 1) 3 0
unfolding raft_run run_turn handle_received raft_handle_rpc pack_request_vote_req
    unpack_request_vote_req handle_request_vote_request become_follower set_fault_detect_timer
    telemetry_log answer_vote grants log_is_up_to_date raft_get_log_term set_election_timer
    read_u32_be write_u32_be
node_1-SentVote = record {
  before = [];
  ev = packet request;
  later = [];
  split = refl;
  small = record { term = omega arith; vote = omega arith };
  sent = refl;
}

-- The only vote that node 0 receives is that of node 1.
node_0-votes : (i : ℕ) → votes_from i 3 (runs 0) ≡ (if 1 == i then 1 else 0)
unfolding pack_request_vote_res unpack_request_vote_res read_u32_be write_u8 write_u32_be
node_0-votes i = ground arith

node_0-Leads : Leads whole 3 nodes runs 3 0
unfolding raft_run run_turn handle_received raft_handle_timeout follower_timeout become_candidate
    start_election set_election_timer broadcast_request_vote raft_handle_rpc pack_request_vote_res
    unpack_request_vote_res handle_request_vote_response count_vote become_leader
    set_heartbeat_timer send_heartbeats telemetry_log read_u32_be write_u8 write_u32_be
node_0-Leads = record {
  within = omega arith;
  at = 2;
  leads = refl;
  in_term = refl;
  once = λ i. ground (arith, node_0-votes i);
  sent = λ i vote.
      let e : 1 ≡ i = ground (arith, node_0-votes i, vote) in
      subst (λ k. (k < 3) × (k ≢ 0) × SentVote whole (runs k) (nodes k) 3 0) e
        (omega arith, (λ z. omega (arith, z)), node_1-SentVote);
}

election_safety_example : (nodes 0).config.id ≡ 0
election_safety_example =
    election_safety whole 3 nodes runs 3 0 0 (omega arith) (omega arith) runs-AllBytes
      (λ i lt. nodes-Member i) node_0-Leads node_0-Leads

raft_run-elected_example :
    let b = raft_run whole (runs 0) (nodes 0) in
    Backed b.hard_state.current_term (votes_in b.hard_state.current_term (runs 0)) b
unfolding raft_run run_turn handle_received raft_handle_timeout follower_timeout become_candidate
    start_election set_election_timer broadcast_request_vote raft_handle_rpc pack_request_vote_res
    unpack_request_vote_res handle_request_vote_response count_vote become_leader
    set_heartbeat_timer send_heartbeats telemetry_log read_u32_be write_u8 write_u32_be
raft_run-elected_example =
    raft_run-elected whole (runs 0) (nodes 0) (runs-AllBytes 0) (omega arith) (omega arith) refl
      refl
