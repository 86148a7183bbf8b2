-- ===== src/Benchmark/Requests.antt =====
-- src/util-unix/benchmark-client.c: the requests and rows of a run.
use raft_research.Prelude.{
  ℕ, zero, suc, ◌%◌, ◌^◌, ◌<◌, ◌≡◌, refl, ap, subst, ◌∙◌, List, [], ◌∷◌, ◌++◌, Option, none, some,
  false, not, arith, inl, inr, length, get_or, ◌+◌, if◌then◌else◌, ltb, ◌==◌, ◌&&◌, Bool-cases,
}
use raft_research.Prelude.Int.{ℤ, pos, leb_ℤ, add32, to_u32, is_zero}
use raft_research.Io.{Io, get_usec}
use raft_research.Transport.{Pkt, uninit_pkt}
use raft_research.Rpc.Messages.{IsProcReq, ProcRes, rpc_resp_proc}
use raft_research.Rpc.{pack_proc_req, unpack_proc_res}
use raft_research.Rpc.RoundTrip.{proc_req_round_trip}
use raft_research.Client.{TransportOps, client_id, parse_peers}
use raft_research.Cstring.{atoi}
use raft_research.Client.Requests.{Carries, request-Carries}
use raft_research.Benchmark.{
  Row, Next, keep, random, hinted, judge, judge_answer, BenchState, move_to, throttle,
  bench_request, Turn, bench_receive, bench_request_turn, bench_turn, bench_run, bench_start,
  bench_main,
}

-- A row is about the request with the number and destination given.
abbrev pub RowFor : ℕ → ℕ → Option Row → Type 0
RowFor seqno dst none = Unit {0}
RowFor seqno dst (some row) = (row.seqno ≡ seqno) × (row.target_node ≡ dst)

-- A turn of a request with the number `seqno`.
pub record Asks {ℓ} {S : Type ℓ} (num_peers seqno : ℕ) (turn : Turn S) : Type ℓ where
  pub pkt : Pkt
  pub packet : turn.packet ≡ some pkt
  pub carries : Carries num_peers (bench_request seqno) pkt
  pub row : RowFor seqno pkt.header.dst turn.row
  pub next_seqno : turn.after.seqno ≡ add32 seqno 1
  pub next_leader : turn.after.current_leader < num_peers

-- The numbers count up by one, modulo 2^32.
abbrev pub AllAsk {ℓ} : {S : Type ℓ} → ℕ → ℕ → List (Turn S) → Type ℓ
AllAsk num_peers seqno [] = Unit
AllAsk num_peers seqno (turn ∷ turns) =
    Asks num_peers seqno turn × AllAsk num_peers (add32 seqno 1) turns

abbrev InRange : ℕ → Next → Type 0
InRange num_peers (hinted id) = id < num_peers
InRange num_peers _ = Unit {0}

judge_answer-next :
    (num_peers : ℕ) (o : Option ProcRes) → InRange num_peers (judge_answer num_peers o).next
judge_answer-next num_peers none = tt
judge_answer-next num_peers (some res) = elim (Bool-cases (res.success == 0)) [
  | inl no_success ↦ elim (Bool-cases (ltb res.leader_hint num_peers)) [
    | inl near ↦ rw (no_success, near) (ground (arith, near))
    | inr far ↦ rw (no_success, far) tt
  ]
  | inr ok ↦ rw ok tt
]

judge-next :
    (num_peers : ℕ) (ret : ℤ) (res_pkt : Pkt) → InRange num_peers (judge num_peers ret res_pkt).next
unfolding judge
judge-next num_peers ret res_pkt =
    elim (Bool-cases (not (leb_ℤ ret (pos 0)) && (res_pkt.header.code == rpc_resp_proc))) [
      | inl answer ↦ rw answer (judge_answer-next num_peers (unpack_proc_res res_pkt))
      | inr other ↦ elim (Bool-cases (is_zero ret)) [
        | inl late ↦ rw (other, late) tt
        | inr bad ↦ rw (other, bad) tt
      ]
    ]

module _ {ℓ} {S : Type ℓ} (t : TransportOps S) (num_peers throttle_ms : ℕ) where
  move_to-leader :
      (next : Next) (st : BenchState S)
      → 0 < num_peers
      → st.current_leader < num_peers
      → InRange num_peers next
      → (move_to num_peers next st).current_leader < num_peers
  move_to-leader keep st some_ now fits = now
  move_to-leader random st some_ now fits = omega arith
  move_to-leader (hinted id) st some_ now fits = fits

  move_to-seqno : (next : Next) (st : BenchState S) → (move_to num_peers next st).seqno ≡ st.seqno
  move_to-seqno keep st = refl
  move_to-seqno random st = refl
  move_to-seqno (hinted id) st = refl

  receive-Asks :
      (seqno sent_usec : ℕ) (pkt : Pkt) (st : BenchState S)
      → 0 < num_peers
      → st.current_leader < num_peers
      → Carries num_peers (bench_request seqno) pkt
      → st.seqno ≡ add32 seqno 1
      → Asks num_peers seqno (bench_receive t num_peers throttle_ms seqno sent_usec pkt st)
  unfolding bench_receive
  receive-Asks seqno sent_usec pkt st some_ now carries counted =
      let came = t.receive 1000 st.transport in
      let v = judge num_peers came.0 came.1 in
      let heard = record st { io = (get_usec st.io).1; transport = came.2 } in
      record {
        pkt = pkt;
        packet = refl;
        carries = carries;
        row = (refl, refl);
        next_seqno = move_to-seqno v.next heard ∙ counted;
        next_leader = move_to-leader v.next heard some_ now (judge-next num_peers came.0 came.1);
      }

  -- The turn after its wait.
  turn-Asks :
      (st : BenchState S)
      → 0 < num_peers
      → st.seqno < 2 ^ 32
      → st.current_leader < num_peers
      → Asks num_peers st.seqno (bench_request_turn t num_peers throttle_ms st)
  unfolding bench_request_turn
  turn-Asks st some_ word now =
      let words : IsProcReq (bench_request st.seqno) = record {
        client_fits = omega arith;
        seqno_fits = word;
        cmd_fits = omega arith;
      } in
      let out = pack_proc_req uninit_pkt st.current_leader client_id (bench_request st.seqno) in
      let packed : not (is_zero out.0) ≡ false =
        ap (λ rc. not (is_zero rc))
          (proc_req_round_trip uninit_pkt st.current_leader client_id (bench_request st.seqno)
            words).0 in
      let carries =
        request-Carries num_peers (bench_request st.seqno) st.current_leader words now in
      let (rc, s) = t.send out.1 st.transport in
      let sent = record st {
        seqno = add32 st.seqno 1;
        last_send_start_usec = (get_usec st.io).0;
        io = (get_usec st.io).1;
        transport = s;
      } in
      elim (Bool-cases (not (is_zero rc))) [
        | inl lost ↦
            rw (packed, lost)
              (record {
                pkt = out.1;
                packet = refl;
                carries = carries;
                row = tt;
                next_seqno = refl;
                next_leader = move_to-leader random sent some_ now tt;
              })
        | inr out_ ↦
            rw (packed, out_)
              (receive-Asks st.seqno (get_usec st.io).0 out.1 sent some_ now carries refl)
      ]

  throttle-same :
      (st : BenchState S)
      → ((throttle throttle_ms st).seqno ≡ st.seqno)
        × ((throttle throttle_ms st).current_leader ≡ st.current_leader)
  throttle-same st = ground arith

  bench_run-requests :
      (turns : ℕ) (st : BenchState S)
      → 0 < num_peers
      → st.seqno < 2 ^ 32
      → st.current_leader < num_peers
      → AllAsk num_peers st.seqno (bench_run t num_peers throttle_ms turns st)
  unfolding bench_run bench_turn
  bench_run-requests zero st some_ word now = tt
  bench_run-requests (suc turns) st some_ word now =
      let waited = throttle throttle_ms st in
      let same = throttle-same st in
      let turn = bench_request_turn t num_peers throttle_ms waited in
      let asks : Asks num_peers st.seqno turn =
        subst (λ n. Asks num_peers n turn) same.0
          (turn-Asks waited some_ (omega (arith, same.0)) (omega (arith, same.1))) in
      let rest =
        bench_run-requests turns turn.after some_ (omega (arith, asks.next_seqno))
          asks.next_leader in
      (
        asks,
        subst (λ n. AllAsk num_peers n (bench_run t num_peers throttle_ms turns turn.after))
            asks.next_seqno rest,
      )

module _ {ℓ} {S : Type ℓ} (t : TransportOps S) where
  -- What the turns of a run of the program are to be: requests to `num_peers` nodes, from a number on.
  abbrev pub RunAsks : ℕ → ℕ → Option (List (Turn S)) → Type ℓ
  RunAsks num_peers seqno none = Unit
  RunAsks num_peers seqno (some turns) = AllAsk num_peers seqno turns

  start-requests :
      (num_peers throttle_ms : ℕ) (io : Io) (now : ℕ) (s : Option S) (turns : ℕ)
      → 0 < num_peers
      → RunAsks num_peers (now % 2 ^ 32) (bench_start t num_peers throttle_ms io now s turns)
  start-requests num_peers throttle_ms io now none turns some_ = tt
  start-requests num_peers throttle_ms io now (some s) turns some_ =
      bench_run-requests t num_peers throttle_ms turns
        (record {
          seqno = now % 2 ^ 32;
          current_leader = io.rand io.draws % num_peers;
          last_send_start_usec = 0;
          io = record io { draws = io.draws + 1 };
          transport = s;
        })
        some_ (omega arith) (omega arith)

  -- Whatever the command line, the transport and rand() give: each request of a run goes to one of
  -- the nodes on the command line, of which 16 at most are read; the numbers of the requests count
  -- up by one modulo 2^32 from the time at the start; and a row that is written in a turn names the
  -- number and the destination of its request.
  pub bench_main-requests :
      (init : ℕ → List (List ℕ) → Option S) (io : Io) (now turns : ℕ) (argv : List (List ℕ))
      → RunAsks
          (length (parse_peers 16 (get_or argv 1 [])))
          (now % 2 ^ 32)
          (bench_main t init io now turns argv)
  unfolding bench_main
  bench_main-requests init io now turns argv =
      let peers = parse_peers 16 (get_or argv 1 []) in
      let throttle_ms = if ltb 3 (length argv) then to_u32 (atoi (get_or argv 3 [])) else 0 in
      let opened = init (length peers) (peers ++ get_or argv 2 [] ∷ []) in
      elim (Bool-cases (ltb (length argv) 3)) [
        | inl short ↦ rw short tt
        | inr enough ↦ elim (Bool-cases (length peers == 0)) [
          | inl nobody ↦ rw (enough, nobody) tt
          | inr somebody ↦
              let some_ : 0 < length peers = ground (arith, somebody) in
              rw (enough, somebody)
                (start-requests (length peers) throttle_ms io now opened turns some_)
        ]
      ]
