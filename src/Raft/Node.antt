-- ===== src/Raft/Node.antt =====
-- src/raft.h, the state of a node, and src/util-unix/raft-util.c, which creates one. The helpers on
-- the log are those at the start of src/raft.c.
pub mod Terms
pub mod UpToDate
use raft_research.Prelude.{
  ℕ, ◌+◌, ◌^◌, ◌<◌, ◌≡◌, List, [], ◌∷◌, Option, none, some, Bool, true, false, length, replicate,
  ltb, leb, ◌==◌, if◌then◌else◌,
}
use raft_research.Prelude.Int.{ℤ, pos, negsuc, to_int, to_u32, ◌-ℤ◌, ltb_ℤ, leb_ℤ, uint32_max}
use raft_research.LogEntry.{LogEntry}
use raft_research.Store.{Log, log_length, log_read, log_write, HardState, get_term}
use raft_research.Accrual.{Telemetry, telemetry_init}
use raft_research.Timer.{RaftTimer}
use raft_research.Io.{Io}

abbrev pub heartbeat_interval_usec : ℕ
heartbeat_interval_usec = 500000

abbrev pub no_leader : ℕ
no_leader = uint32_max

abbrev pub max_outstanding_requests : ℕ
max_outstanding_requests = 128

-- `raft_role_t`
pub data RaftRole : Type 0 where
  follower candidate leader : RaftRole

-- `outstanding_req_t`
pub record OutstandingReq : Type 0 where
  pub client_id : ℕ
  pub cmd_seqno : ℕ
  pub log_idx : ℕ
  pub active : ℕ

-- `raft_config_t`; `accrual_threshold` is the bit pattern of a double.
pub record RaftConfig : Type 0 where
  pub id : ℕ
  pub num_nodes : ℕ
  pub timeout_scheme : ℕ
  pub accrual_threshold : ℕ
  pub accrual_window_size : ℕ
  pub accrual_ramp_size : ℕ
  pub timeout_lb_ms : ℕ
  pub timeout_ub_ms : ℕ
  pub crash_after_h : ℤ

-- `raft_node_t`. The transport is `io.sent`, to which every packet that is sent is added.
pub record RaftNode : Type 0 where
  pub config : RaftConfig
  pub role : RaftRole
  pub heartbeat_count : ℕ
  pub log : Log
  pub hard_state : HardState
  pub commit_index : ℤ
  pub last_applied : ℤ
  pub leader_id : ℕ
  pub heartbeat_telemetry : Telemetry
  pub votes_received : ℕ
  pub next_index : List ℕ
  pub match_index : List ℤ
  pub outstanding_reqs : List OutstandingReq
  pub running : Bool
  pub timer : RaftTimer
  pub io : Io

abbrev pub inactive : OutstandingReq
inactive = record { client_id = 0; cmd_seqno = 0; log_idx = 0; active = 0 }

-- `raft_create`. The two arrays come from malloc(), so what they hold at first is an argument;
-- calloc() clears the rest.
unfoldable pub raft_create : RaftConfig → Log → HardState → List ℕ → List ℤ → Io → RaftNode
raft_create config log pf next_index match_index io = record {
  config = config;
  role = follower;
  heartbeat_count = 0;
  log = log;
  hard_state = pf;
  commit_index = negsuc 0;
  last_applied = negsuc 0;
  leader_id = no_leader;
  heartbeat_telemetry =
      telemetry_init config.accrual_threshold config.accrual_window_size config.accrual_ramp_size;
  votes_received = 0;
  next_index = next_index;
  match_index = match_index;
  outstanding_reqs = replicate max_outstanding_requests inactive;
  running = true;
  timer = record { start_usec = 0; duration_usec = 0 };
  io = io;
}

-- (uint32_t)node->hard_state.get(PF_CURRENT_TERM, ..)
abbrev pub term_word : RaftNode → ℕ
term_word node = to_u32 (get_term node.hard_state)

-- `node->role == LEADER` and `node->role == CANDIDATE`
abbrev pub is_leader : RaftRole → Bool
is_leader leader = true
is_leader _ = false

abbrev pub is_candidate : RaftRole → Bool
is_candidate candidate = true
is_candidate _ = false

abbrev pub is_follower : RaftRole → Bool
is_follower follower = true
is_follower _ = false

abbrev term_or_zero : Option LogEntry → ℕ
term_or_zero none = 0
term_or_zero (some e) = e.term

unfoldable pub raft_get_log_term : Log → ℤ → ℕ
raft_get_log_term log log_idx =
    if ltb_ℤ log_idx (pos 0)
    then 0
    else if leb_ℤ (log_length log) log_idx
    then 0
    else term_or_zero (log_read log_idx log)

unfoldable pub log_is_up_to_date : Log → ℕ → ℕ → Bool
log_is_up_to_date log req_last_log_idx req_last_log_term =
    let log_len = log_length log in
    let my_last_term = raft_get_log_term log (log_len -ℤ pos 1) in
    if ltb my_last_term req_last_log_term
    then true
    else if my_last_term == req_last_log_term
    then leb (to_u32 (log_len -ℤ pos 1)) req_last_log_idx
    else false

unfoldable pub append_log_entry : LogEntry → RaftNode → RaftNode
append_log_entry entry node =
    if ltb_ℤ (log_length node.log) (pos 0)
    then node
    else record node { log = log_write (log_length node.log) entry node.log }
