-- ===== src/Benchmark.antt =====
-- src/util-unix/benchmark-client.c: the client that sends one request after the other and writes a
-- row for each answer. The output to the terminal and the pauses are left out.
pub mod Requests
use raft_research.Prelude.{
  ℕ, zero, suc, ◌+◌, ◌-◌, ◌%◌, List, [], ◌∷◌, ◌++◌, Option, none, some, Bool, true, false, not,
  ◌&&◌, ltb, leb, ◌==◌, if◌then◌else◌, length, get_or, ◌^◌,
}
use raft_research.Prelude.Int.{
  ℤ, pos, negsuc, to_int, add32, sub64, uint32_max, leb_ℤ, to_u32, is_zero,
}
use raft_research.Io.{Io, get_usec}
use raft_research.Transport.{Pkt, uninit_pkt}
use raft_research.Rpc.Messages.{ProcReq, ProcRes, rpc_resp_proc}
use raft_research.Rpc.{pack_proc_req, unpack_proc_res}
use raft_research.Client.{TransportOps, client_id, parse_peers}
use raft_research.Cstring.{atoi}

-- The texts of the column Result.
pub data ResultName : Type 0 where
  success not_leader unpack_error timeout recv_error : ResultName

-- A row of client.csv; the latency in microseconds.
pub record Row : Type 0 where
  pub seqno : ℕ
  pub sent_usec : ℕ
  pub received_usec : ℕ
  pub latency_usec : ℕ
  pub result : ResultName
  pub target_node : ℕ
  pub leader_hint : ℕ
  pub term : ℤ

-- Where the next request goes: to the same node, to the hint, or to one that rand() gives.
pub data Next : Type 0 where
  keep random : Next
  hinted : ℕ → Next

pub record Verdict : Type 0 where
  pub result : ResultName
  pub leader_hint : ℕ
  pub term : ℤ
  pub next : Next

abbrev pub no_hint : ResultName → Next → Verdict
no_hint result next = record {
  result = result;
  leader_hint = uint32_max;
  term = negsuc 0;
  next = next;
}

abbrev pub judge_answer : ℕ → Option ProcRes → Verdict
judge_answer num_peers none = no_hint unpack_error keep
judge_answer num_peers (some res) = record {
  result = if res.success == 0 then not_leader else success;
  leader_hint = res.leader_hint;
  term = to_int res.term;
  next =
      if res.success == 0
      then if ltb res.leader_hint num_peers then hinted res.leader_hint else random
      else keep;
}

-- What receive() gives within a second.
unfoldable pub judge : ℕ → ℤ → Pkt → Verdict
judge num_peers ret res_pkt =
    if not (leb_ℤ ret (pos 0)) && (res_pkt.header.code == rpc_resp_proc)
    then judge_answer num_peers (unpack_proc_res res_pkt)
    else if is_zero ret
    then no_hint timeout random
    else no_hint recv_error random

-- The variables of main() that the loop changes.
pub record BenchState {ℓ} (S : Type ℓ) : Type ℓ where
  pub seqno : ℕ
  pub current_leader : ℕ
  pub last_send_start_usec : ℕ
  pub io : Io
  pub transport : S

abbrev pub is_success : ResultName → Bool
is_success success = true
is_success _ = false

abbrev pub bench_row : ℕ → ℕ → ℕ → Pkt → Verdict → Row
bench_row seqno sent_usec recv_time pkt v =
    let received = if is_success v.result then recv_time else 0 in
    record {
      seqno = seqno;
      sent_usec = sent_usec;
      received_usec = received;
      latency_usec = if is_success v.result && ltb 0 received then sub64 received sent_usec else 0;
      result = v.result;
      target_node = pkt.header.dst;
      leader_hint = v.leader_hint;
      term = v.term;
    }

module _ {ℓ} {S : Type ℓ} where
  -- rand() % num_peers
  abbrev pub draw_leader : ℕ → BenchState S → BenchState S
  draw_leader num_peers st = record st {
    current_leader = st.io.rand st.io.draws % num_peers;
    io = record st.io { draws = st.io.draws + 1 };
  }

  abbrev pub move_to : ℕ → Next → BenchState S → BenchState S
  move_to num_peers keep st = st
  move_to num_peers random st = draw_leader num_peers st
  move_to num_peers (hinted id) st = record st { current_leader = id }

  -- The wait before a request reads the clock once, where there is one.
  abbrev pub throttle : ℕ → BenchState S → BenchState S
  throttle throttle_ms st =
      if ltb 0 throttle_ms && ltb 0 st.last_send_start_usec
      then record st { io = (get_usec st.io).1 }
      else st

abbrev pub bench_request : ℕ → ProcReq
bench_request seqno = record { client_id = client_id; cmd_seqno = seqno; cmd = 72 }

-- One turn: the packet that was handed to the transport, the row, and the state after it.
pub record Turn {ℓ} (S : Type ℓ) : Type ℓ where
  pub packet : Option Pkt
  pub row : Option Row
  pub after : BenchState S

module _ {ℓ} {S : Type ℓ} (t : TransportOps S) (num_peers throttle_ms : ℕ) where
  -- From receive() to the row.
  unfoldable pub bench_receive : ℕ → ℕ → Pkt → BenchState S → Turn S
  bench_receive seqno sent_usec pkt st =
      let (ret, res_pkt, s) = t.receive 1000 st.transport in
      let (recv_time, io) = get_usec st.io in
      let v = judge num_peers ret res_pkt in
      record {
        packet = some pkt;
        row = some (bench_row seqno sent_usec recv_time pkt v);
        after = move_to num_peers v.next (record st { io = io; transport = s });
      }

  -- The turn after the wait.
  unfoldable pub bench_request_turn : BenchState S → Turn S
  bench_request_turn st =
      let seqno = st.seqno in
      let (packed, pkt) =
        pack_proc_req uninit_pkt st.current_leader client_id (bench_request seqno) in
      let counted = record st { seqno = add32 seqno 1 } in
      let (sent_usec, io) = get_usec st.io in
      let (rc, s) = t.send pkt st.transport in
      let sent = record counted { last_send_start_usec = sent_usec; io = io; transport = s } in
      if not (is_zero packed)
      then record { packet = none; row = none; after = counted }
      else if not (is_zero rc)
      then record { packet = some pkt; row = none; after = draw_leader num_peers sent }
      else bench_receive seqno sent_usec pkt sent

  unfoldable pub bench_turn : BenchState S → Turn S
  bench_turn st = bench_request_turn (throttle throttle_ms st)

  -- `while (running)`, for the turns that begin before a signal clears `running`.
  unfoldable pub bench_run : ℕ → BenchState S → List (Turn S)
  bench_run zero st = []
  bench_run (suc turns) st = let turn = bench_turn st in turn ∷ bench_run turns turn.after

module _ {ℓ} {S : Type ℓ} (t : TransportOps S) where
  abbrev pub bench_start : ℕ → ℕ → Io → ℕ → Option S → ℕ → Option (List (Turn S))
  bench_start num_peers throttle_ms io now none turns = none
  bench_start num_peers throttle_ms io now (some s) turns = some (
      bench_run t num_peers throttle_ms turns (record {
        seqno = now % 2 ^ 32;
        current_leader = io.rand io.draws % num_peers;
        last_send_start_usec = 0;
        io = record io { draws = io.draws + 1 };
        transport = s;
      }))

  -- main(), where `init` opens the transport for the id and the addresses and `now` is the result of
  -- time(); `none` where the process ends before the loop with status 1.
  unfoldable pub bench_main :
      (ℕ → List (List ℕ) → Option S) → Io → ℕ → ℕ → List (List ℕ) → Option (List (Turn S))
  bench_main init io now turns argv =
      let peers = parse_peers 16 (get_or argv 1 []) in
      let throttle_ms = if ltb 3 (length argv) then to_u32 (atoi (get_or argv 3 [])) else 0 in
      if ltb (length argv) 3
      then none
      else if length peers == 0
      then none
      else bench_start (length peers) throttle_ms io now
          (init (length peers) (peers ++ get_or argv 2 [] ∷ [])) turns
