-- ===== src/Tests/Programs.antt =====
-- Examples for the programs: the clients, the node and the orchestrator.
use raft_research.Prelude.{
  get_elem?, ◌++◌, ℕ, ◌+◌, ◌≡◌, refl, List, [], ◌∷◌, some, true, arith, length, get_or,
}
use raft_research.Prelude.Int.{pos}
use raft_research.Memory.{write_u32_be, read_u32_be}
use raft_research.Transport.{Pkt, uninit_pkt}
use raft_research.Rpc.Messages.{ProcReq}
use raft_research.Rpc.{pack_proc_req, pack_proc_res, unpack_proc_res}
use raft_research.Client.{TransportOps, client_loop, read_answer, parse_peers}
use raft_research.Client.Requests.{Requests}
use raft_research.Benchmark.{bench_main}
use raft_research.Benchmark.Requests.{RunAsks, bench_main-requests}
use raft_research.NodeProgram.{
  default_options, parse_arg, parse_args, Surroundings, id_option, peers_option,
}
use raft_research.Orchestrator.{Poll, poll_ready, poll_timeout, orchestra_loop}
use raft_research.Orchestrator.Writes.{Orchestrated, orchestra_loop-writes}
use raft_research.Raft.Node.{RaftNode}
use raft_research.Raft.Dispatch.{Received, packet, raft_run}
use raft_research.Orchestrator.Shutdown.{HasEnded, orchestra_loop-ends}
use raft_research.Tests.Data.{whole, io, a_follower}

-- Node 0 names node 1 as the leader, and node 1 commits. The state counts the answers.
abbrev answer_of : ℕ → Pkt
answer_of k =
    (pack_proc_res uninit_pkt 999 k
      (record { client_id = 999; cmd_seqno = 5; success = k; leader_hint = 1; term = 2 })).1

abbrev two_nodes : TransportOps ℕ
two_nodes = record {
  send = λ pkt s. (pos 0, s);
  receive = λ timeout s. (pos 1, answer_of s, s + 1);
}

abbrev req : ProcReq
req = record { client_id = 999; cmd_seqno = 5; cmd = 7 }

-- "1:8,2:9"
abbrev two_addrs : List ℕ
two_addrs = 49 ∷ 58 ∷ 56 ∷ 44 ∷ 50 ∷ 58 ∷ 57 ∷ []

abbrev bench_argv : List (List ℕ)
bench_argv = [] ∷ two_addrs ∷ (51 ∷ 58 ∷ 55 ∷ []) ∷ []

bench_main-requests_example :
    RunAsks two_nodes
      (length (parse_peers 16 (get_or bench_argv 1 [])))
      77
      (bench_main two_nodes (λ id addrs. some 0) io 77 3 bench_argv)
bench_main-requests_example = bench_main-requests two_nodes (λ id addrs. some 0) io 77 3 bench_argv

-- node --id 1 --peers 1:8,2:9
abbrev node_argv : List (List ℕ)
node_argv = [] ∷ id_option ∷ (49 ∷ []) ∷ peers_option ∷ two_addrs ∷ []

abbrev surroundings : Surroundings
surroundings = record {
  io = io;
  row_file = true;
  transport_up = true;
  log = a_follower.log;
  hard_state = a_follower.hard_state;
  next_index = [];
  match_index = [];
}

-- Node 0 has a packet for node 1.
abbrev polls : List Poll
polls =
    poll_ready (λ i. some (record { pkt = some (answer_of i); taken = true })) ∷ poll_timeout ∷ []

orchestra_loop-writes_example : Orchestrated 2 polls (orchestra_loop 2 polls)
orchestra_loop-writes_example = orchestra_loop-writes 2 polls

-- What the functions give on these.
two_peers : length (parse_peers 16 (get_or bench_argv 1 [])) ≡ 2
two_peers = refl

asked_two : length (client_loop two_nodes 2 req 2 0 0).sent ≡ 2
unfolding client_loop read_answer pack_proc_req pack_proc_res unpack_proc_res write_u32_be
    read_u32_be
asked_two = refl

parsed_id : (parse_args (λ text. 0) node_argv 5 1 (default_options 8)).id ≡ 1
unfolding parse_args parse_arg
parsed_id = refl

orchestra_loop-ends_example :
    (k : ℕ) × (pkt : Pkt) × (get_elem? (orchestra_loop 2 polls) k ≡ some (1, pkt))
    × ((before rest : List Received) (node : RaftNode)
        → HasEnded (raft_run whole (before ++ packet pkt ∷ rest) node))
orchestra_loop-ends_example = orchestra_loop-ends whole 2 polls 1 (omega arith)
