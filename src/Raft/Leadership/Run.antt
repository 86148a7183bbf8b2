-- ===== src/Raft/Leadership/Run.antt =====
-- src/raft.c: the vote of a node over a run of the main loop.
use raft_research.Prelude.{
  ◌+◌, ◌<◌, ◌^◌, ◌≡◌, refl, sym, ◌∙◌, inl, inr, List, [], ◌∷◌, true, false, not, ◌&&◌, arith, ◌==◌,
  Bool-cases,
}
use raft_research.Float.{Double}
use raft_research.Io.{timeout, get_usec}
use raft_research.Transport.{Pkt}
use raft_research.Store.{no_vote}
use raft_research.Store.Bounds.{natural, word}
use raft_research.Raft.Node.{RaftNode, is_candidate, term_word}
use raft_research.Raft.Timers.{
  set_fault_detect_timer, set_election_timer, set_heartbeat_timer, telemetry_log,
}
use raft_research.Raft.Send.{send_heartbeats, broadcast_request_vote}
use raft_research.Raft.Roles.{become_candidate, start_election}
use raft_research.Raft.Vote.Grant.{IsNatural}
use raft_research.Raft.Dispatch.{
  Received, packet, timed_out, failed, raft_handle_rpc, leader_timeout, follower_timeout,
  raft_handle_timeout, handle_received, run_turn, raft_run, is_none,
}
use raft_research.Raft.Progress.Loop.{AllBytes, turn-Progress, raft_run-Progress}
use raft_research.Raft.Leadership.Messages.{raft_handle_rpc-KeepsOrWins}

-- The node has voted, and not for itself as a candidate.
pub record HasVoted (node : RaftNode) : Type 0 where
  pub given : not (node.hard_state.voted_for == no_vote) ≡ true
  pub no_candidate : is_candidate node.role ≡ false

-- `b` is as `a` was: no candidate, with the same vote.
pub record Stays (a b : RaftNode) : Type 0 where
  pub no_candidate : is_candidate b.role ≡ false
  pub vote : b.hard_state.voted_for ≡ a.hard_state.voted_for

rpc-Stays :
    (pkt : Pkt) (node : RaftNode)
    → IsNatural node.hard_state
    → HasVoted node
    → (raft_handle_rpc pkt node).hard_state.current_term ≡ node.hard_state.current_term
    → Stays node (raft_handle_rpc pkt node)
rpc-Stays pkt node small voted same =
    let keeps = raft_handle_rpc-KeepsOrWins pkt node small in
    record {
      no_candidate = ground (arith, keeps.stands, voted.no_candidate);
      vote = ground (arith, keeps.vote same, voted.given, voted.no_candidate);
    }

new_term :
    (node : RaftNode)
    → node.hard_state.current_term < 2 ^ 31
    → (become_candidate node).hard_state.current_term ≡ node.hard_state.current_term + 1
unfolding become_candidate start_election telemetry_log set_election_timer broadcast_request_vote
new_term node small =
    let t = natural node.hard_state.current_term small in
    let w = word node.hard_state.current_term small in rw (t, w) (omega arith)

leader_timeout-core :
    (node : RaftNode)
    → ((leader_timeout node).role ≡ node.role)
      × ((leader_timeout node).hard_state ≡ node.hard_state)
unfolding leader_timeout set_heartbeat_timer send_heartbeats telemetry_log
leader_timeout-core node = ground arith

fault_timer-core :
    (node : RaftNode)
    → ((set_fault_detect_timer node).role ≡ node.role)
      × ((set_fault_detect_timer node).hard_state ≡ node.hard_state)
unfolding set_fault_detect_timer
fault_timer-core node = (refl, refl)

module _ (fp : Double) where
  follower_timeout-Stays :
      (node : RaftNode)
      → node.hard_state.current_term < 2 ^ 31
      → is_candidate node.role ≡ false
      → (follower_timeout fp node).hard_state.current_term ≡ node.hard_state.current_term
      → Stays node (follower_timeout fp node)
  unfolding follower_timeout telemetry_log
  follower_timeout-Stays node small calm same =
      let sampled = record node { io = (get_usec node.io).1 } in
      let logged = λ (n : RaftNode). telemetry_log timeout (term_word node) 0 n in
      ground (
        arith,
        new_term (logged node) small,
        new_term (logged sampled) small,
        fault_timer-core sampled,
        same,
        calm,
      )

  timeout-Stays :
      (node : RaftNode)
      → node.hard_state.current_term < 2 ^ 31
      → is_candidate node.role ≡ false
      → (raft_handle_timeout fp node).hard_state.current_term ≡ node.hard_state.current_term
      → Stays node (raft_handle_timeout fp node)
  unfolding raft_handle_timeout
  timeout-Stays node small calm same =
      ground (arith, follower_timeout-Stays node small calm, leader_timeout-core node, same)

  turn-Stays :
      (ev : Received) (node : RaftNode)
      → IsNatural node.hard_state
      → HasVoted node
      → (run_turn fp ev node).hard_state.current_term ≡ node.hard_state.current_term
      → Stays node (run_turn fp ev node)
  unfolding run_turn handle_received
  turn-Stays (packet pkt) node small voted same =
      let seen = record node { io = (get_usec node.io).1 } in
      ground (
        arith,
        rpc-Stays pkt seen small
            (record { given = voted.given; no_candidate = voted.no_candidate }),
        same,
        voted.no_candidate,
      )
  turn-Stays timed_out node small voted same =
      let seen = record node { io = (get_usec node.io).1 } in
      ground (arith, timeout-Stays seen small.term voted.no_candidate, same)
  turn-Stays failed node small voted same =
      let seen = record node { io = (get_usec node.io).1 } in
      let looked = record seen { io = (get_usec seen.io).1 } in
      ground (arith, timeout-Stays looked small.term voted.no_candidate, same, voted.no_candidate)

  -- Whatever packets of bytes a node receives, and however its timers run: if it has voted and is
  -- no candidate, and is in the same term at the end of a run of the main loop as at its start, it
  -- has the same vote still, and is not a candidate. The two persistent fields are below 2^31.
  pub raft_run-vote :
      (evs : List Received) (node : RaftNode)
      → AllBytes fp evs
      → IsNatural node.hard_state
      → HasVoted node
      → (raft_run fp evs node).hard_state.current_term ≡ node.hard_state.current_term
      → (is_candidate (raft_run fp evs node).role ≡ false)
        × ((raft_run fp evs node).hard_state.voted_for ≡ node.hard_state.voted_for)
  unfolding raft_run
  raft_run-vote [] node bytes small voted same = (voted.no_candidate, refl)
  raft_run-vote (ev ∷ evs) node bytes small voted same =
      elim (Bool-cases (node.running && is_none node.io.exit_status)) [
        | inl goes ↦
            let after = run_turn fp ev node in
            let end : (raft_run fp evs after).hard_state.current_term
                ≡ node.hard_state.current_term =
              ground (arith, goes, same) in
            let turn = turn-Progress fp ev node bytes.0 (omega arith) in
            let rest =
              raft_run-Progress fp evs after bytes.1 (omega (arith, turn.term_fits, small.term)) in
            let mid : after.hard_state.current_term ≡ node.hard_state.current_term =
              omega (arith, turn.term_le, rest.term_le, end) in
            let stays = turn-Stays ev node small voted mid in
            let small' : IsNatural after.hard_state = record {
              term = omega (arith, mid, small.term);
              vote = omega (arith, stays.vote, small.vote);
            } in
            let voted' : HasVoted after = record {
              given = ground (arith, stays.vote, voted.given);
              no_candidate = stays.no_candidate;
            } in
            let (calm, kept) = raft_run-vote evs after bytes.1 small' voted' (end ∙ sym mid) in
            rw goes (calm, kept ∙ stays.vote)
        | inr ends ↦ rw ends (voted.no_candidate, refl)
      ]
