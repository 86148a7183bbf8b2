-- ===== src/Tests/Data.antt =====
-- A cluster of three nodes, for the examples.
use raft_research.Prelude.{ℕ, [], ◌∷◌, none, true}
use raft_research.Prelude.Int.{pos, negsuc}
use raft_research.Float.{Double}
use raft_research.LogEntry.{LogEntry}
use raft_research.Accrual.{Telemetry}
use raft_research.Io.{Io}
use raft_research.Store.{no_vote}
use raft_research.Rpc.Messages.{AppendEntriesReq}
use raft_research.Raft.Node.{RaftNode, RaftConfig, OutstandingReq, follower, candidate, leader}
use raft_research.Prelude.{ltb, leb, ◌*◌}

abbrev pub config : RaftConfig
config = record {
  id = 0;
  num_nodes = 3;
  timeout_scheme = 50;
  accrual_threshold = 8;
  accrual_window_size = 4;
  accrual_ramp_size = 0;
  timeout_lb_ms = 150;
  timeout_ub_ms = 300;
  crash_after_h = negsuc 0;
}

abbrev pub entry : ℕ → ℕ → LogEntry
entry term cmd = record { term = term; client_id = 9; cmd_seqno = cmd; cmd = cmd }

abbrev pub io : Io
io = record {
  clock = λ k. (k, 0);
  ticks = 1;
  rand = λ k. k;
  draws = 0;
  sent = [];
  trace = [];
  exit_status = none;
}

abbrev pub telemetry : Telemetry
telemetry = record {
  intervals_usec = 5 ∷ 7 ∷ 0 ∷ 0 ∷ [];
  window_size = 4;
  ramp_size = 0;
  threshold = 8;
  interval_index = 2;
  num_intervals = 2;
  last_heartbeat_usec = 100;
}

abbrev pub free_slot : OutstandingReq
free_slot = record { client_id = 0; cmd_seqno = 0; log_idx = 0; active = 0 }

-- A follower in term 2, whose log has entries of terms 1, 1 and 2.
abbrev pub a_follower : RaftNode
a_follower = record {
  config = config;
  role = follower;
  heartbeat_count = 0;
  log = entry 1 10 ∷ entry 1 11 ∷ entry 2 12 ∷ [];
  hard_state = record { current_term = 2; voted_for = no_vote };
  commit_index = pos 0;
  last_applied = pos 0;
  leader_id = 1;
  heartbeat_telemetry = telemetry;
  votes_received = 0;
  next_index = 3 ∷ 3 ∷ 3 ∷ [];
  match_index = negsuc 0 ∷ negsuc 0 ∷ negsuc 0 ∷ [];
  outstanding_reqs = free_slot ∷ [];
  running = true;
  timer = record { start_usec = 0; duration_usec = 0 };
  io = io;
}

-- In term 2 it has voted for node 1.
abbrev pub a_voter : RaftNode
a_voter = record a_follower { hard_state = record { current_term = 2; voted_for = 1 } }

-- With its own vote it needs one more.
abbrev pub a_candidate : RaftNode
a_candidate = record a_follower {
  role = candidate;
  votes_received = 1;
  hard_state = record { current_term = 2; voted_for = 0 };
}

abbrev pub a_leader : RaftNode
a_leader = record a_candidate { role = leader }

-- From the leader of term 3: the second entry is another one.
abbrev pub request : AppendEntriesReq
request = record {
  term = 3;
  leader_id = 1;
  prev_log_idx = 0;
  prev_log_term = 1;
  leader_commit = pos 1;
  n_entries = 1;
  entries = entry 3 20 ∷ [];
}

-- From the leader of term 2: the two entries that are there already.
abbrev pub repeated : AppendEntriesReq
repeated = record {
  term = 2;
  leader_id = 1;
  prev_log_idx = 0;
  prev_log_term = 1;
  leader_commit = pos 0;
  n_entries = 1;
  entries = entry 1 11 ∷ [];
}

-- Arithmetic on whole numbers, for the arithmetic of `double`.
abbrev pub whole : Double
whole = record {
  of_uint = λ n. n;
  div = λ a b. a;
  mul = λ a b. a * b;
  lt = ltb;
  le = leb;
  zero = 0;
  one = 1;
  log10_e = 1;
}
