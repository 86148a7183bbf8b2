-- ===== src/Socket/WellFormed/Calls.antt =====
-- src/transport-socket/transport-socket.c: the invariant of the tables over calls of `socket_send`
-- and `socket_receive`.
use raft_research.Prelude.{
  ℕ, zero, suc, ◌*◌, ◌≡◌, ap, List, [], ◌∷◌, Option, none, some, arith, inl, inr, ltb, leb,
  Bool-cases, Option-cases, length, length-replicate, get_or, subst,
}
use raft_research.Prelude.Int.{ℤ, sub64}
use raft_research.Socket.{
  SocketContext, System, IsFresh, Connecting, parse_addr, connect_to_peer, accept_all,
  transport_socket_init, init_context, max_connections,
}
use raft_research.Socket.Stream.{send_loop, Reading, ReadEnd, whole, nothing, broken}
use raft_research.Socket.Send.{
  Waiting, ready, not_ready, interrupted, wait_error, wait_writable, route, fd_or_connect, find_fd,
  send_over, Sends, write_pkt, socket_send,
}
use raft_research.Socket.Receive.{
  Select, readable, arriving, select_interrupted, select_error, err_recv, Scan, scan,
  socket_receive, read_end, received, scan_step,
}
use raft_research.Socket.WellFormed.{
  WellFormed, err_close-WellFormed, err_recv-WellFormed, record_sender-WellFormed,
  accept_all-WellFormed, open_peer-WellFormed,
}

abbrev or_else : SocketContext → Option SocketContext → SocketContext
or_else d none = d
or_else d (some ctx) = ctx

-- The contexts that a node or a client can get to: the one it starts with, and those after calls
-- of the two functions, whatever the system calls in them give.
pub data Reach (sys : System) (src_of : List ℕ → ℕ) : SocketContext → Type 0 where
  started :
      (id : ℕ) (peers : List (List ℕ)) (timeout : ℕ) {ctx : SocketContext}
      → transport_socket_init sys id peers (length peers) timeout ≡ some ctx
      → Reach sys src_of ctx
  sent :
      (calls : Sends) (dst : ℕ) (pkt : List ℕ) {ctx : SocketContext}
      → Reach sys src_of ctx
      → Reach sys src_of (socket_send sys calls dst pkt ctx).2
  came :
      (rounds : List Select) {ctx : SocketContext}
      → Reach sys src_of ctx
      → Reach sys src_of (socket_receive src_of sys rounds ctx).2

module _ (sys : System) (fresh : IsFresh sys) where
  pub wait_writable-WellFormed :
      (start : ℕ) (rounds : List (ℕ × Waiting)) (ctx : SocketContext)
      → WellFormed ctx
      → WellFormed (wait_writable sys start rounds ctx).1
  unfolding wait_writable
  wait_writable-WellFormed start [] ctx wf = wf
  wait_writable-WellFormed start ((now, ready (some n) writable) ∷ rounds) ctx wf =
      let taken = accept_all-WellFormed sys fresh n ctx wf in
      let rest = wait_writable-WellFormed start rounds (accept_all sys n ctx) taken in
      elim (Bool-cases (leb (ctx.connect_timeout_ms * 1000) (sub64 now start))) [
        | inl late ↦ rw late wf
        | inr early ↦ elim (Bool-cases writable) [
          | inl w ↦ rw (early, w) taken
          | inr w ↦ rw (early, w) rest
        ]
      ]
  wait_writable-WellFormed start ((now, ready none writable) ∷ rounds) ctx wf =
      let rest = wait_writable-WellFormed start rounds ctx wf in
      elim (Bool-cases (leb (ctx.connect_timeout_ms * 1000) (sub64 now start))) [
        | inl late ↦ rw late wf
        | inr early ↦ elim (Bool-cases writable) [
          | inl w ↦ rw (early, w) wf
          | inr w ↦ rw (early, w) rest
        ]
      ]
  wait_writable-WellFormed start ((now, wait_error) ∷ rounds) ctx wf = wf
  wait_writable-WellFormed start ((now, not_ready) ∷ rounds) ctx wf =
      elim (Bool-cases (leb (ctx.connect_timeout_ms * 1000) (sub64 now start))) [
        | inl late ↦ rw late wf
        | inr early ↦ rw early (wait_writable-WellFormed start rounds ctx wf)
      ]
  wait_writable-WellFormed start ((now, interrupted) ∷ rounds) ctx wf =
      elim (Bool-cases (leb (ctx.connect_timeout_ms * 1000) (sub64 now start))) [
        | inl late ↦ rw late wf
        | inr early ↦ rw early (wait_writable-WellFormed start rounds ctx wf)
      ]

  connect_to_peer-WellFormed :
      (how : Connecting) (id : ℕ) (ctx : SocketContext)
      → WellFormed ctx
      → WellFormed (connect_to_peer sys how id ctx).1
  unfolding connect_to_peer
  connect_to_peer-WellFormed how id ctx wf =
      let opened = open_peer-WellFormed sys fresh how id ctx wf in
      elim (Bool-cases (leb ctx.num_nodes id)) [
        | inl out ↦ rw out wf
        | inr known ↦ elim (Option-cases (parse_addr sys (get_or ctx.peer_addrs id []))) [
          | inl bad ↦ rw (known, bad) wf
          | inr (addr, good) ↦ rw (known, good) opened
        ]
      ]

  pub find_fd-WellFormed :
      (how : Connecting) (dst : ℕ) (known : Option ℕ) (ctx : SocketContext)
      → WellFormed ctx
      → WellFormed (fd_or_connect sys how dst known ctx).1
  find_fd-WellFormed how dst (some fd) ctx wf = wf
  find_fd-WellFormed how dst none ctx wf = elim (Bool-cases (ltb dst ctx.num_nodes)) [
    | inl node ↦ rw node (connect_to_peer-WellFormed how dst ctx wf)
    | inr client ↦ rw client wf
  ]

  write_pkt-WellFormed :
      (calls : Sends) (pkt : List ℕ) (dst fd : ℕ) (ctx : SocketContext)
      → WellFormed ctx
      → WellFormed (write_pkt calls pkt dst fd ctx).2
  unfolding write_pkt
  write_pkt-WellFormed calls pkt dst fd ctx wf =
      let closed = err_close-WellFormed dst fd ctx wf in
      elim (Bool-cases calls.so_error) [
        | inl bad ↦ rw bad closed
        | inr good ↦ elim (Bool-cases (send_loop calls.sends pkt 0).0) [
          | inl all ↦ rw (good, all) wf
          | inr some_ ↦ rw (good, some_) closed
        ]
      ]

  send_over-WellFormed :
      (calls : Sends) (dst : ℕ) (pkt : List ℕ) (fd : Option ℕ) (ctx : SocketContext)
      → WellFormed ctx
      → WellFormed (send_over sys calls dst pkt fd ctx).2
  send_over-WellFormed calls dst pkt none ctx wf = wf
  send_over-WellFormed calls dst pkt (some fd) ctx wf =
      let waited = wait_writable sys calls.start calls.rounds ctx in
      let wf' = wait_writable-WellFormed calls.start calls.rounds ctx wf in
      elim (Bool-cases waited.0) [
        | inl go ↦ rw go (write_pkt-WellFormed calls pkt dst fd waited.1 wf')
        | inr stop ↦ rw stop wf'
      ]

  socket_send-WellFormed :
      (calls : Sends) (dst : ℕ) (pkt : List ℕ) (ctx : SocketContext)
      → WellFormed ctx
      → WellFormed (socket_send sys calls dst pkt ctx).2
  unfolding socket_send
  socket_send-WellFormed calls dst pkt ctx wf =
      let found = find_fd sys calls.how dst ctx in
      send_over-WellFormed calls dst pkt found.0 found.1
        (find_fd-WellFormed calls.how dst (route dst ctx) ctx wf)

  module _ (src_of : List ℕ → ℕ) where
    step-WellFormed :
        (end : ReadEnd) (fd : ℕ) (ctx : SocketContext) (skipped lost : Scan)
        → WellFormed ctx
        → WellFormed skipped.after
        → WellFormed lost.after
        → WellFormed (scan_step src_of end fd ctx skipped lost).after
    step-WellFormed (whole pkt) fd ctx skipped lost wf s l =
        record_sender-WellFormed (src_of pkt) fd ctx wf
    step-WellFormed nothing fd ctx skipped lost wf s l = s
    step-WellFormed broken fd ctx skipped lost wf s l = l

    pub scan-WellFormed :
        (reads : ℕ → Option (List Reading)) (left i : ℕ) (ctx : SocketContext)
        → WellFormed ctx
        → WellFormed (scan src_of reads left i ctx).after
    unfolding scan
    scan-WellFormed reads zero i ctx wf = wf
    scan-WellFormed reads (suc left) i ctx wf =
        let fd = get_or ctx.active_fds i 0 in
        let dropped = err_recv-WellFormed fd ctx wf in
        step-WellFormed (read_end (reads fd)) fd ctx (scan src_of reads left (suc i) ctx)
          (scan src_of reads left i (err_recv fd ctx)) wf
          (scan-WellFormed reads left (suc i) ctx wf)
          (scan-WellFormed reads left i (err_recv fd ctx) dropped)

    received-WellFormed :
        (p : Option (List ℕ × ℕ)) (ctx : SocketContext)
        (rest : ℤ × Option (List ℕ × ℕ) × SocketContext)
        → WellFormed ctx
        → WellFormed rest.2
        → WellFormed (received p ctx rest).2
    received-WellFormed (some p) ctx rest s r = s
    received-WellFormed none ctx rest s r = r

    socket_receive-WellFormed :
        (rounds : List Select) (ctx : SocketContext)
        → WellFormed ctx
        → WellFormed (socket_receive src_of sys rounds ctx).2
    unfolding socket_receive
    socket_receive-WellFormed [] ctx wf = wf
    socket_receive-WellFormed (readable reads ∷ rounds) ctx wf =
        let scanned = scan src_of reads (length ctx.active_fds) 0 ctx in
        let wf' = scan-WellFormed reads (length ctx.active_fds) 0 ctx wf in
        received-WellFormed scanned.arrived scanned.after
          (socket_receive src_of sys rounds scanned.after) wf'
          (socket_receive-WellFormed rounds scanned.after wf')
    socket_receive-WellFormed (arriving n ∷ rounds) ctx wf =
        socket_receive-WellFormed rounds (accept_all sys n ctx)
          (accept_all-WellFormed sys fresh n ctx wf)
    socket_receive-WellFormed (select_interrupted ∷ rounds) ctx wf =
        socket_receive-WellFormed rounds ctx wf
    socket_receive-WellFormed (select_error ∷ rounds) ctx wf = wf

    init-WellFormed :
        (addr : Option (ℕ × ℕ)) (peers : List (List ℕ)) (n timeout : ℕ) (ctx : SocketContext)
        → init_context addr peers n timeout ≡ some ctx
        → WellFormed ctx
    init-WellFormed none peers n timeout ctx e = absurd cc
    init-WellFormed (some addr) peers n timeout ctx e =
        let made : WellFormed _ = record {
          peers = length-replicate {A = Option ℕ} n none;
          clients = length-replicate {A = Option ℕ} max_connections none;
          room = omega arith;
          active = λ y. omega arith;
        } in
        subst WellFormed (ap (or_else ctx) e) made

    -- Whatever the system calls give, and whatever packets arrive: the tables keep the sizes of the
    -- arrays, at most 1024 descriptors are active, and each of them is open and stands in the array
    -- once. A new descriptor is one that is not open.
    pub calls-WellFormed : {ctx : SocketContext} → Reach sys src_of ctx → WellFormed ctx
    unfolding transport_socket_init
    calls-WellFormed (started id peers timeout {ctx = ctx} e) =
        init-WellFormed (parse_addr sys (get_or peers id [])) peers (length peers) timeout ctx e
    calls-WellFormed (sent calls dst pkt {ctx = ctx} r) =
        socket_send-WellFormed calls dst pkt ctx (calls-WellFormed r)
    calls-WellFormed (came rounds {ctx = ctx} r) =
        socket_receive-WellFormed rounds ctx (calls-WellFormed r)
