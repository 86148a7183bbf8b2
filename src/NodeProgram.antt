-- ===== src/NodeProgram.antt =====
-- src/util-unix/node.c: the program of a node. The files and the transport are arguments; `atof` is the
-- function of the C library, on the bit patterns of doubles.
pub mod Start
use raft_research.Prelude.{
  ℕ, zero, suc, ◌+◌, List, [], ◌∷◌, Option, none, some, Bool, ltb, leb, ◌==◌, ◌&&◌, if◌then◌else◌,
  length, get_or,
}
use raft_research.Prelude.Int.{ℤ, negsuc, to_u32}
use raft_research.Cstring.{str_eq, atoi, tokens}
use raft_research.Io.{Io, get_usec, random_timeout_usec}
use raft_research.Timer.{timer_reset}
use raft_research.Accrual.{ts_timeout, ts_accrual}
use raft_research.Store.{Log, HardState}
use raft_research.Client.{parse_peers}
use raft_research.Raft.Node.{RaftConfig, RaftNode, raft_create}

-- "--id"
abbrev pub id_option : List ℕ
id_option = 45 ∷ 45 ∷ 105 ∷ 100 ∷ []

-- "--peers"
abbrev pub peers_option : List ℕ
peers_option = 45 ∷ 45 ∷ 112 ∷ 101 ∷ 101 ∷ 114 ∷ 115 ∷ []

-- "--a"
abbrev pub accrual_option : List ℕ
accrual_option = 45 ∷ 45 ∷ 97 ∷ []

-- "--t"
abbrev pub timeout_option : List ℕ
timeout_option = 45 ∷ 45 ∷ 116 ∷ []

-- "--crash_after_heartbeats"
abbrev pub crash_option : List ℕ
crash_option =
    45 ∷ 45 ∷ 99 ∷ 114 ∷ 97 ∷ 115 ∷ 104 ∷ 95 ∷ 97 ∷ 102 ∷ 116 ∷ 101 ∷ 114 ∷ 95 ∷ 104 ∷ 101 ∷ 97
    ∷ 114 ∷ 116 ∷ 98 ∷ 101 ∷ 97 ∷ 116 ∷ 115 ∷ []

-- The variables that the loop over the arguments sets.
pub record Options : Type 0 where
  pub id : ℕ
  pub peers_str : Option (List ℕ)
  pub ts : ℕ
  pub timeout_lb_ms : ℕ
  pub timeout_ub_ms : ℕ
  pub acc_thresh : ℕ
  pub acc_ws : ℕ
  pub acc_rs : ℕ
  pub crash_after_h : ℤ

module _ (atof : List ℕ → ℕ) (argv : List (List ℕ)) where
  abbrev arg : ℕ → List ℕ
  arg i = get_or argv i []

  abbrev number : ℕ → ℕ
  number i = to_u32 (atoi (arg i))

  -- The body of the loop: the new index, before `i++`, and the variables.
  unfoldable pub parse_arg : ℕ → Options → ℕ × Options
  parse_arg i o =
      if str_eq (arg i) id_option && ltb (i + 1) (length argv)
      then (i + 1, record o { id = number (i + 1) })
      else if str_eq (arg i) peers_option && ltb (i + 1) (length argv)
      then (i + 1, record o { peers_str = some (arg (i + 1)) })
      else if str_eq (arg i) accrual_option && ltb (i + 3) (length argv)
      then (
        i + 3,
        record o {
          ts = ts_accrual;
          acc_thresh = atof (arg (i + 1));
          acc_ws = number (i + 2);
          acc_rs = number (i + 3);
        },
      )
      else if str_eq (arg i) timeout_option && ltb (i + 2) (length argv)
      then (
        i + 2,
        record o {
          ts = ts_timeout;
          timeout_lb_ms = number (i + 1);
          timeout_ub_ms = number (i + 2);
        },
      )
      else if str_eq (arg i) crash_option && ltb (i + 1) (length argv)
      then (i + 1, record o { crash_after_h = atoi (arg (i + 1)) })
      else (i, o)

  -- `for (int i = 1; i < argc; i++)`, for at most `turns` turns.
  unfoldable pub parse_args : ℕ → ℕ → Options → Options
  parse_args zero i o = o
  parse_args (suc turns) i o =
      let (last, parsed) = parse_arg i o in
      let rest = parse_args turns (last + 1) parsed in if ltb i (length argv) then rest else o

-- The values before the loop; `one` is the double 1.0.
abbrev pub default_options : ℕ → Options
default_options one = record {
  id = 0;
  peers_str = none;
  ts = ts_timeout;
  timeout_lb_ms = 1000;
  timeout_ub_ms = 2000;
  acc_thresh = one;
  acc_ws = 32;
  acc_rs = 8;
  crash_after_h = negsuc 0;
}

abbrev pub config_of : Options → ℕ → RaftConfig
config_of o num_peers = record {
  id = o.id;
  num_nodes = num_peers;
  timeout_scheme = o.ts;
  accrual_threshold = o.acc_thresh;
  accrual_window_size = o.acc_ws;
  accrual_ramp_size = o.acc_rs;
  timeout_lb_ms = o.timeout_lb_ms;
  timeout_ub_ms = o.timeout_ub_ms;
  crash_after_h = o.crash_after_h;
}

-- The row that `record_start` writes; its other columns are constants.
pub record StartRow : Type 0 where
  pub node_id : ℕ
  pub timestamp_usec : ℕ

-- Where the file cannot be opened no row is written.
abbrev pub record_start : Bool → RaftConfig → Io → Option StartRow × Io
record_start opened config io =
    if opened
    then (some (record { node_id = config.id; timestamp_usec = (get_usec io).0 }), (get_usec io).1)
    else (none, io)

-- The timer of a new node.
unfoldable pub start_first_timer : RaftNode → RaftNode
start_first_timer node =
    let (usec, io1) =
      random_timeout_usec node.config.timeout_lb_ms node.config.timeout_ub_ms node.io in
    let (now, io2) = get_usec io1 in
    record node { timer = timer_reset now (record node.timer { duration_usec = usec }); io = io2 }

-- What main() comes to before raft_run(): a status, or the node and the row of the file.
pub data NodeMain : Type 0 where
  exited : ℕ → NodeMain
  started : RaftNode → Option StartRow → NodeMain

-- What the process is given: rand() and the clock, whether the row's file opens, whether the transport
-- comes up, the log and the fields read from the files, and the arrays of malloc().
pub record Surroundings : Type 0 where
  pub io : Io
  pub row_file : Bool
  pub transport_up : Bool
  pub log : Log
  pub hard_state : HardState
  pub next_index : List ℕ
  pub match_index : List ℤ

unfoldable pub node_start : Surroundings → RaftConfig → NodeMain
node_start s config =
    let (row, io) = record_start s.row_file config s.io in
    let node = raft_create config s.log s.hard_state s.next_index s.match_index io in
    if s.transport_up then started (start_first_timer node) row else exited 1

abbrev pub main_with : Surroundings → Options → Option (List ℕ) → NodeMain
main_with s o none = exited 1
main_with s o (some peers_str) =
    let num_peers = length (parse_peers 128 peers_str) in
    if ltb o.timeout_ub_ms o.timeout_lb_ms
    then exited 1
    else if leb num_peers o.id
    then exited 1
    else node_start s (config_of o num_peers)

unfoldable pub node_main : (List ℕ → ℕ) → ℕ → Surroundings → List (List ℕ) → NodeMain
node_main atof one s argv =
    let o = parse_args atof argv (length argv) 1 (default_options one) in main_with s o o.peers_str
