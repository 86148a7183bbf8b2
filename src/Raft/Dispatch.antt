-- ===== src/Raft/Dispatch.antt =====
-- src/raft.c, from a packet or a timeout to its handler, and the main loop.
pub mod Delivery
use raft_research.Prelude.{
  refl, ℕ, ◌+◌, ◌<◌, ◌≡◌, List, [], ◌∷◌, Option, none, some, Bool, true, false, not, ◌&&◌, ltb,
  ◌==◌, if◌then◌else◌,
}
use raft_research.Prelude.Int.{ℤ, pos, ltb_ℤ, leb_ℤ}
use raft_research.Float.{Double}
use raft_research.Accrual.{ts_accrual, check_leader_failure}
use raft_research.Timer.{timer_expired}
use raft_research.Io.{EventName, timeout, intentional_crash, get_usec}
use raft_research.Transport.{Pkt}
use raft_research.Rpc.Messages.{
  ProcRes, rpc_call_append_ent, rpc_resp_append_ent, rpc_call_req_vote, rpc_resp_req_vote,
  rpc_call_proc, rpc_resp_proc, rpc_shutdown,
}
use raft_research.Rpc.{
  unpack_append_entries_res, unpack_request_vote_req, unpack_request_vote_res, unpack_proc_req,
  unpack_proc_res,
}
use raft_research.Rpc.AppendEntries.{unpack_append_entries_req}
use raft_research.Raft.Node.{RaftNode, RaftRole, follower, candidate, leader, term_word}
use raft_research.Raft.Timers.{
  uses_random_timeout, set_fault_detect_timer, set_heartbeat_timer, telemetry_log,
}
use raft_research.Raft.Send.{send_heartbeats}
use raft_research.Raft.Roles.{become_candidate, start_election}
use raft_research.Raft.Append.{handle_append_entries_request}
use raft_research.Raft.Replicate.{handle_append_entries_response}
use raft_research.Raft.Vote.{handle_request_vote_request, handle_request_vote_response}
use raft_research.Raft.Client.{handle_proc_request}

-- `if (rpc_unpack_..(pkt, &m) == 0) handle(m);`
abbrev pub on_success {ℓ} : {M : Type ℓ} → Option M → (M → RaftNode) → RaftNode → RaftNode
on_success none handle node = node
on_success (some m) handle node = handle m

-- What holds of the node and of what the handler makes of it holds after a packet.
pub on_success-cases {ℓ m} :
    {M : Type ℓ} (P : RaftNode → Type m) (o : Option M) (handle : M → RaftNode) (node : RaftNode)
    → P node
    → ((a : M) → o ≡ some a → P (handle a))
    → P (on_success o handle node)
on_success-cases P none handle node before after = before
on_success-cases P (some a) handle node before after = after a refl

abbrev pub handle_proc_response : ProcRes → RaftNode → RaftNode
handle_proc_response resp node = node

unfoldable pub raft_handle_rpc : Pkt → RaftNode → RaftNode
raft_handle_rpc pkt node =
    let code = pkt.header.code in
    let src = pkt.header.src in
    if code == rpc_call_append_ent
    then on_success (unpack_append_entries_req pkt) (λ m. handle_append_entries_request m node) node
    else if code == rpc_resp_append_ent
    then on_success (unpack_append_entries_res pkt) (λ m. handle_append_entries_response src m node)
        node
    else if code == rpc_call_req_vote
    then on_success (unpack_request_vote_req pkt) (λ m. handle_request_vote_request src m node) node
    else if code == rpc_resp_req_vote
    then on_success (unpack_request_vote_res pkt) (λ m. handle_request_vote_response src m node)
        node
    else if code == rpc_call_proc
    then on_success (unpack_proc_req pkt) (λ m. handle_proc_request m src node) node
    else if code == rpc_resp_proc
    then on_success (unpack_proc_res pkt) (λ m. handle_proc_response m node) node
    else node

-- A leader's turn: heartbeats, and the crash that the configuration may ask for.
unfoldable pub leader_timeout : RaftNode → RaftNode
unfolding set_heartbeat_timer send_heartbeats telemetry_log
leader_timeout node =
    let beaten = send_heartbeats (set_heartbeat_timer node) in
    let count = node.heartbeat_count + 1 in
    let counted = record beaten { heartbeat_count = count } in
    let logged = telemetry_log EventName.intentional_crash (term_word node) count counted in
    if leb_ℤ (pos 0) node.config.crash_after_h && leb_ℤ node.config.crash_after_h (pos count)
    then record logged { io = record logged.io { exit_status = some 42 } }
    else counted

-- What `transport.receive` returns: 1 with a packet, 0, or -1.
pub data Received : Type 0 where
  packet : Pkt → Received
  timed_out : Received
  failed : Received

abbrev pub is_none : Option ℕ → Bool
is_none none = true
is_none (some _) = false

module _ (fp : Double) where
  -- A follower's turn: the time is up, or the accrual test is made.
  unfoldable pub follower_timeout : RaftNode → RaftNode
  unfolding telemetry_log
  follower_timeout node =
      let (now, io) = get_usec node.io in
      let sampled = record node { io = io } in
      if uses_random_timeout node
      then become_candidate (telemetry_log EventName.timeout (term_word node) 0 node)
      else if node.config.timeout_scheme == ts_accrual
      then (if check_leader_failure fp now node.heartbeat_telemetry
          then become_candidate (telemetry_log EventName.timeout (term_word node) 0 sampled)
          else set_fault_detect_timer sampled)
      else node

  timeout_as : RaftRole → RaftNode → RaftNode
  timeout_as follower node = follower_timeout node
  timeout_as candidate node =
      start_election (telemetry_log EventName.timeout (term_word node) 0 node)
  timeout_as leader node = leader_timeout node

  unfoldable pub raft_handle_timeout : RaftNode → RaftNode
  unfolding timeout_as
  raft_handle_timeout node = timeout_as node.role node

  -- The part of a turn of the main loop after `transport.receive`.
  unfoldable pub handle_received : Received → RaftNode → RaftNode
  handle_received (packet pkt) node =
      if pkt.header.code == rpc_shutdown
      then record node { running = false }
      else if pkt.header.dst == node.config.id
      then raft_handle_rpc pkt node
      else node
  handle_received timed_out node = raft_handle_timeout node
  handle_received failed node =
      let (now, io) = get_usec node.io in
      let looked = record node { io = io } in
      if timer_expired now node.timer
      then raft_handle_timeout looked
      else record looked { running = false }

  -- A turn of the main loop: the clock is read for the timeout that `transport.receive` gets.
  unfoldable pub run_turn : Received → RaftNode → RaftNode
  run_turn received node =
      let (now, io) = get_usec node.io in handle_received received (record node { io = io })

  -- The main loop, for the results that `transport.receive` gives one after the other: it ends when
  -- `running` is 0 or the process has exited.
  unfoldable pub raft_run : List Received → RaftNode → RaftNode
  raft_run [] node = node
  raft_run (received ∷ rest) node =
      let after = raft_run rest (run_turn received node) in
      if node.running && is_none node.io.exit_status then after else node
