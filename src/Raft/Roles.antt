-- ===== src/Raft/Roles.antt =====
-- src/raft.c: the changes of role, and the start of an election.
pub mod Election
use raft_research.Prelude.{
  ℕ, ◌+◌, ◌^◌, ◌<◌, ◌≡◌, List, Bool, true, false, replicate, ltb, ◌==◌, if◌then◌else◌,
}
use raft_research.Prelude.Int.{ℤ, pos, negsuc, to_u32, add32, ltb_ℤ}
use raft_research.Store.{HardState, log_length, no_vote, get_term}
use raft_research.Accrual.{telemetry_reset}
use raft_research.Io.{EventName, became_follower, became_candidate, became_leader}
use raft_research.Raft.Node.{RaftNode, RaftRole, follower, candidate, leader, no_leader, term_word}
use raft_research.Raft.Timers.{
  set_fault_detect_timer, set_election_timer, set_heartbeat_timer, telemetry_log,
}
use raft_research.Raft.Send.{broadcast_request_vote, send_heartbeats}

abbrev clear_telemetry : RaftNode → RaftNode
clear_telemetry node = record node {
  heartbeat_telemetry = telemetry_reset node.heartbeat_telemetry;
}

unfoldable pub become_follower : ℕ → ℕ → RaftNode → RaftNode
unfolding set_fault_detect_timer telemetry_log
become_follower term leader_id node = set_fault_detect_timer (
    clear_telemetry (
      telemetry_log EventName.became_follower term leader_id (record node {
        hard_state = record { current_term = term; voted_for = no_vote };
        role = follower;
        leader_id = leader_id;
        votes_received = 0;
      })))

unfoldable pub start_election : RaftNode → RaftNode
unfolding set_election_timer broadcast_request_vote
start_election node =
    if ltb_ℤ (get_term node.hard_state) (pos 0)
    then node
    else broadcast_request_vote (
        set_election_timer (record node {
          hard_state = record {
            current_term = add32 (term_word node) 1;
            voted_for = node.config.id;
          };
          votes_received = 1;
        }))

unfoldable pub become_candidate : RaftNode → RaftNode
unfolding telemetry_log
become_candidate node =
    let started = start_election (
      clear_telemetry
        (record node { role = candidate; leader_id = no_leader; votes_received = 0 })) in
    telemetry_log EventName.became_candidate (term_word started) 0 started

unfoldable pub become_leader : RaftNode → RaftNode
unfolding set_heartbeat_timer send_heartbeats telemetry_log
become_leader node =
    let logged = telemetry_log EventName.became_leader (term_word node) 0 node in
    let size = node.config.num_nodes in
    send_heartbeats (
      set_heartbeat_timer (
        clear_telemetry (record logged {
          role = leader;
          leader_id = no_leader;
          heartbeat_count = 0;
          next_index = replicate size (to_u32 (log_length node.log));
          match_index = replicate size (negsuc 0);
        })))
