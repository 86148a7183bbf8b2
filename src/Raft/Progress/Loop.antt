-- ===== src/Raft/Progress/Loop.antt =====
-- src/raft.c: the main loop, from the handlers to a whole run.
use raft_research.Prelude.{List, [], ◌∷◌, arith}
use raft_research.Float.{Double}
use raft_research.Io.{get_usec}
use raft_research.Transport.{Pkt}
use raft_research.Rpc.{
  unpack_append_entries_res, unpack_request_vote_req, unpack_request_vote_res, unpack_proc_req,
}
use raft_research.Rpc.AppendEntries.{unpack_append_entries_req}
use raft_research.Rpc.Bounds.{
  IsBytes, append_entries_req-term, append_entries_res-term, request_vote_req-term,
  request_vote_res-term,
}
use raft_research.Raft.Node.{RaftNode}
use raft_research.Raft.Timers.{set_fault_detect_timer, telemetry_log}
use raft_research.Raft.Roles.{become_candidate, start_election}
use raft_research.Raft.Append.{handle_append_entries_request}
use raft_research.Raft.Replicate.{handle_append_entries_response}
use raft_research.Raft.Vote.{handle_request_vote_request, handle_request_vote_response}
use raft_research.Raft.Client.{handle_proc_request}
use raft_research.Raft.Dispatch.{
  Received, packet, timed_out, failed, on_success-cases, raft_handle_rpc, leader_timeout,
  follower_timeout, raft_handle_timeout, handle_received, run_turn, raft_run,
}
use raft_research.Raft.Progress.{
  Progress, HasTerm, Progress-refl, append_entries_request-Progress,
  append_entries_response-Progress, request_vote_request-Progress, request_vote_response-Progress,
  proc_request-Progress,
}

rpc-Progress :
    (pkt : Pkt) (node : RaftNode)
    → IsBytes pkt.payload
    → HasTerm node
    → Progress node (raft_handle_rpc pkt node)
unfolding raft_handle_rpc
rpc-Progress pkt node b h = ground (
  arith,
  Progress-refl node,
  on_success-cases (Progress node) (unpack_append_entries_req pkt)
      (λ m. handle_append_entries_request m node) node (Progress-refl node)
      (λ m e. append_entries_request-Progress m node h (append_entries_req-term pkt b m e)),
  on_success-cases (Progress node) (unpack_append_entries_res pkt)
      (λ m. handle_append_entries_response pkt.header.src m node) node (Progress-refl node)
      (λ m e.
        append_entries_response-Progress pkt.header.src m node h
          (append_entries_res-term pkt b m e)),
  on_success-cases (Progress node) (unpack_request_vote_req pkt)
      (λ m. handle_request_vote_request pkt.header.src m node) node (Progress-refl node)
      (λ m e.
        request_vote_request-Progress pkt.header.src m node h (request_vote_req-term pkt b m e)),
  on_success-cases (Progress node) (unpack_request_vote_res pkt)
      (λ m. handle_request_vote_response pkt.header.src m node) node (Progress-refl node)
      (λ m e.
        request_vote_response-Progress pkt.header.src m node h (request_vote_res-term pkt b m e)),
  on_success-cases (Progress node) (unpack_proc_req pkt)
      (λ m. handle_proc_request m pkt.header.src node) node (Progress-refl node)
      (λ m e. proc_request-Progress m pkt.header.src node),
)

leader_timeout-Progress : (node : RaftNode) → Progress node (leader_timeout node)
unfolding leader_timeout
leader_timeout-Progress node = ground (arith, Progress-refl node)

abbrev read_clock : RaftNode → RaftNode
read_clock node = record node { io = (get_usec node.io).1 }

module _ (fp : Double) where
  follower_timeout-Progress :
      (node : RaftNode) → HasTerm node → Progress node (follower_timeout fp node)
  unfolding follower_timeout become_candidate start_election set_fault_detect_timer
  follower_timeout-Progress node h = ground (arith, Progress-refl node)

  timeout-Progress : (node : RaftNode) → HasTerm node → Progress node (raft_handle_timeout fp node)
  unfolding raft_handle_timeout start_election telemetry_log
  timeout-Progress node h =
      ground (arith, follower_timeout-Progress node h, leader_timeout-Progress node)

  -- What is received is made of bytes.
  abbrev pub AreBytes : Received → Type 0
  AreBytes (packet pkt) = IsBytes pkt.payload
  AreBytes timed_out = Unit {0}
  AreBytes failed = Unit {0}

  pub turn-Progress :
      (ev : Received) (node : RaftNode)
      → AreBytes ev
      → HasTerm node
      → Progress node (run_turn fp ev node)
  unfolding run_turn handle_received
  turn-Progress (packet pkt) node b h = ground (arith, rpc-Progress pkt (read_clock node) b h)
  turn-Progress timed_out node b h = ground (arith, timeout-Progress (read_clock node) h)
  turn-Progress failed node b h = ground (arith, timeout-Progress (read_clock (read_clock node)) h)

  abbrev pub AllBytes : List Received → Type 0
  AllBytes [] = Unit {0}
  AllBytes (ev ∷ evs) = AreBytes ev × AllBytes evs

  -- Whatever packets of bytes a node receives, in whatever order, and however its timers run, from
  -- a term that is a uint32_t on: its term never goes back and stays a uint32_t, the index of the
  -- last applied entry never goes back, and its configuration stays as it is.
  pub raft_run-Progress :
      (evs : List Received) (node : RaftNode)
      → AllBytes evs
      → HasTerm node
      → Progress node (raft_run fp evs node)
  unfolding raft_run
  raft_run-Progress [] node b h = Progress-refl node
  raft_run-Progress (ev ∷ evs) node b h =
      let turn = turn-Progress ev node b.0 h in
      ground (arith, Progress-refl node, turn, raft_run-Progress evs (run_turn fp ev node) b.1)
