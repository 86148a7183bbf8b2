-- ===== src/Raft/Timers.antt =====
-- src/raft.c: the timers of a node, and the rows that it adds to the telemetry file.
use raft_research.Prelude.{ℕ, ◌+◌, ◌*◌, ◌/◌, [], ◌∷◌, ◌++◌, Bool, ◌||◌, ltb, ◌==◌, if◌then◌else◌}
use raft_research.Prelude.Int.{negsuc, to_int, mul32}
use raft_research.Accrual.{ts_timeout, ts_accrual, accrual_interval_ms}
use raft_research.Timer.{time_remaining_usec}
use raft_research.Io.{Io, EventName, get_usec, random_timeout_usec}
use raft_research.Raft.Node.{RaftNode, heartbeat_interval_usec, no_leader}

-- The fixed, random timeout is used: by choice, or until the accrual window has its ramp.
abbrev pub uses_random_timeout : RaftNode → Bool
uses_random_timeout node =
    node.config.timeout_scheme == ts_timeout
    || ltb node.heartbeat_telemetry.num_intervals node.heartbeat_telemetry.ramp_size

-- `node->timer.duration_usec = d; timer_reset(&node->timer);`
abbrev pub start_timer : ℕ → Io → RaftNode → RaftNode
start_timer duration io node =
    let (now, io') = get_usec io in
    record node { timer = record { start_usec = now; duration_usec = duration }; io = io' }

unfoldable pub set_fault_detect_timer : RaftNode → RaftNode
set_fault_detect_timer node =
    let lo = mul32 node.config.timeout_lb_ms 1000 in
    let hi = mul32 node.config.timeout_ub_ms 1000 in
    let (random, drawn) = random_timeout_usec lo hi node.io in
    let by_chance = uses_random_timeout node in
    start_timer
      (if by_chance
        then random
        else if node.config.timeout_scheme == ts_accrual
        then accrual_interval_ms * 1000
        else node.timer.duration_usec)
      (record node.io { draws = if by_chance then drawn.draws else node.io.draws }) node

unfoldable pub set_election_timer : RaftNode → RaftNode
set_election_timer node =
    let (random, drawn) =
      random_timeout_usec (heartbeat_interval_usec * 3) (heartbeat_interval_usec * 5) node.io in
    start_timer random drawn node

unfoldable pub set_heartbeat_timer : RaftNode → RaftNode
set_heartbeat_timer node = start_timer heartbeat_interval_usec node.io node

-- `now` is the reading of get_usec(). The result is in milliseconds, rounded up.
unfoldable pub raft_get_timeout_ms : ℕ → RaftNode → ℕ
raft_get_timeout_ms now node =
    let rem = time_remaining_usec now node.timer in if rem == 0 then 0 else (rem + 999) / 1000

-- `telemetry_log`, for a file that can be opened.
unfoldable pub telemetry_log : EventName → ℕ → ℕ → RaftNode → RaftNode
telemetry_log event term value node =
    let (now, io) = get_usec node.io in
    record node {
      io = record io {
        trace =
            io.trace
            ++ record {
              timestamp_usec = now;
              event = event;
              term = term;
              leader_id = if node.leader_id == no_leader then negsuc 0 else to_int node.leader_id;
              value = value;
            }
              ∷ [];
      };
    }
