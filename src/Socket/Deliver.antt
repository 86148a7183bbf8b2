-- ===== src/Socket/Deliver.antt =====
-- src/transport-socket/transport-socket.c: what a call of `socket_send` or `socket_receive` has done
-- when it returns.
use raft_research.Prelude.{
  append_nil, ℕ, zero, suc, ◌≡◌, refl, ap, sym, ◌∙◌, List, [], ◌∷◌, ◌++◌, Option, none, some, true,
  false, arith, ◌⊎◌, inl, inr, Bool-cases, if◌then◌else◌, length, get_or,
}
use raft_research.Prelude.Int.{ℤ, pos, negsuc}
use raft_research.Socket.{
  SocketContext, System, IsFresh, is_open, accept_all, close, remove_active_fd,
}
use raft_research.Socket.Stream.{sizeof_pkt, send_loop, Reading, ReadEnd, whole, nothing, broken}
use raft_research.Socket.Stream.Framing.{send_loop-Unsent}
use raft_research.Socket.Send.{
  wait_writable, route, set_route, find_fd, Sends, err_close, write_pkt, send_over, socket_send,
}
use raft_research.Socket.Receive.{
  Select, readable, arriving, select_interrupted, select_error, err_recv, Scan, scan, scan_step,
  read_end, received, socket_receive,
}
use raft_research.Socket.WellFormed.{
  WellFormed, drop-WellFormed, err_recv-WellFormed, accept_all-WellFormed,
}
use raft_research.Socket.WellFormed.Calls.{
  wait_writable-WellFormed, find_fd-WellFormed, scan-WellFormed,
}
use raft_research.Socket.Active.{count}
use raft_research.Socket.Lost.{drop-Closed}
use raft_research.Socket.Route.{same_entry, route-set_route, record_sender-route}

-- A descriptor that has been given up: it is closed, not in the array of active ones, and the table
-- entry of the destination is cleared.
pub record GivenUp (fd dst : ℕ) (ctx : SocketContext) : Type 0 where
  pub shut : is_open fd ctx.open_fds ≡ false
  pub inactive : count fd ctx.active_fds ≡ 0
  pub no_route : route dst ctx ≡ none

-- The whole packet has been written, or the call has failed, and what was written of it went over a
-- descriptor that has been given up. `fd` is the descriptor that the packet is to go to, if there is one.
abbrev pub WholeOrClosed : Option ℕ → ℕ → List ℕ → ℤ × List ℕ × SocketContext → Type 0
WholeOrClosed fd dst pkt out =
    ((out.0 ≡ pos 0) × (out.1 ≡ pkt))
    ⊎ ((out.0 ≡ negsuc 0) × ((out.1 ≡ []) ⊎ ((f : ℕ) × (fd ≡ some f) × GivenUp f dst out.2)))

same_entry_self : (n a : ℕ) → same_entry n a a ≡ true
same_entry_self n a = ground arith

err_close-GivenUp :
    (dst fd : ℕ) (ctx : SocketContext) → WellFormed ctx → GivenUp fd dst (err_close dst fd ctx)
unfolding err_close set_route
err_close-GivenUp dst fd ctx wf =
    let dropped = remove_active_fd fd (close fd ctx) in
    let gone = drop-Closed fd ctx wf in
    let cleared = route-set_route dst none dropped dst (drop-WellFormed fd ctx wf) in
    record {
      shut = ground (arith, gone.shut);
      inactive = ground (arith, gone.inactive);
      no_route =
          cleared
          ∙ ap (λ b. if b then none else route dst dropped) (same_entry_self ctx.num_nodes dst);
    }

write_pkt-WholeOrClosed :
    (calls : Sends) (pkt : List ℕ) (dst fd : ℕ) (ctx : SocketContext)
    → WellFormed ctx
    → length pkt ≡ sizeof_pkt
    → WholeOrClosed (some fd) dst pkt (write_pkt calls pkt dst fd ctx)
unfolding write_pkt
write_pkt-WholeOrClosed calls pkt dst fd ctx wf size =
    let out = send_loop calls.sends pkt 0 in
    let unsent = send_loop-Unsent calls.sends pkt 0 size in
    let gone = err_close-GivenUp dst fd ctx wf in
    elim (Bool-cases calls.so_error) [
      | inl bad ↦ rw bad (inr (refl, inl refl))
      | inr good ↦ elim (Bool-cases out.0) [
        | inl all ↦
            let wrote_all =
              sym (append_nil out.1)
              ∙ ap (λ r. out.1 ++ r) (sym (unsent.none_left all))
              ∙ unsent.split in
            rw (good, all) (inl (refl, wrote_all))
        | inr part ↦ rw (good, part) (inr (refl, inr (fd, refl, gone)))
      ]
    ]

-- Where a packet has come, an answer to its sender finds the connection it came over.
abbrev pub Answerable : (List ℕ → ℕ) → Option (List ℕ × ℕ) → SocketContext → Type 0
Answerable src_of none ctx = Unit {0}
Answerable src_of (some (pkt, fd)) ctx = route (src_of pkt) ctx ≡ some fd

module _ (sys : System) (fresh : IsFresh sys) where
  send_over-WholeOrClosed :
      (calls : Sends) (dst : ℕ) (pkt : List ℕ) (fd : Option ℕ) (ctx : SocketContext)
      → WellFormed ctx
      → length pkt ≡ sizeof_pkt
      → WholeOrClosed fd dst pkt (send_over sys calls dst pkt fd ctx)
  send_over-WholeOrClosed calls dst pkt none ctx wf size = inr (refl, inl refl)
  send_over-WholeOrClosed calls dst pkt (some fd) ctx wf size =
      let waited = wait_writable sys calls.start calls.rounds ctx in
      let wf' = wait_writable-WellFormed sys fresh calls.start calls.rounds ctx wf in
      elim (Bool-cases waited.0) [
        | inl go ↦ rw go (write_pkt-WholeOrClosed calls pkt dst fd waited.1 wf' size)
        | inr stop ↦ rw stop (inr (refl, inl refl))
      ]

  -- Where a call of `socket_send` returns 0, it has written the whole packet. Otherwise it returns -1,
  -- and it has written nothing, or the descriptor on which a part of the packet may have gone out (that
  -- of the table entry of the destination, or of a new connection to it) is closed, no longer among the
  -- active ones, and no longer that of the destination; another table entry may still name it. A packet
  -- has the size of `pkt_t`, the tables are well formed, and a new descriptor is one that is not open.
  pub socket_send-whole :
      (calls : Sends) (dst : ℕ) (pkt : List ℕ) (ctx : SocketContext)
      → WellFormed ctx
      → length pkt ≡ sizeof_pkt
      → WholeOrClosed (find_fd sys calls.how dst ctx).0 dst pkt (socket_send sys calls dst pkt ctx)
  unfolding socket_send
  socket_send-whole calls dst pkt ctx wf size =
      let found = find_fd sys calls.how dst ctx in
      send_over-WholeOrClosed calls dst pkt found.0 found.1
        (find_fd-WellFormed sys fresh calls.how dst (route dst ctx) ctx wf) size

  module _ (src_of : List ℕ → ℕ) where
    step-Answerable :
        (end : ReadEnd) (fd : ℕ) (ctx : SocketContext) (skipped lost : Scan)
        → WellFormed ctx
        → Answerable src_of skipped.arrived skipped.after
        → Answerable src_of lost.arrived lost.after
        → let s = scan_step src_of end fd ctx skipped lost in Answerable src_of s.arrived s.after
    step-Answerable (whole pkt) fd ctx skipped lost wf s l =
        record_sender-route (src_of pkt) fd (src_of pkt) ctx wf
        ∙ ap (λ b. if b then some fd else route (src_of pkt) ctx)
            (same_entry_self ctx.num_nodes (src_of pkt))
    step-Answerable nothing fd ctx skipped lost wf s l = s
    step-Answerable broken fd ctx skipped lost wf s l = l

    scan-Answerable :
        (reads : ℕ → Option (List Reading)) (left i : ℕ) (ctx : SocketContext)
        → WellFormed ctx
        → let s = scan src_of reads left i ctx in Answerable src_of s.arrived s.after
    unfolding scan
    scan-Answerable reads zero i ctx wf = tt
    scan-Answerable reads (suc left) i ctx wf =
        let fd = get_or ctx.active_fds i 0 in
        step-Answerable (read_end (reads fd)) fd ctx (scan src_of reads left (suc i) ctx)
          (scan src_of reads left i (err_recv fd ctx)) wf
          (scan-Answerable reads left (suc i) ctx wf)
          (scan-Answerable reads left i (err_recv fd ctx) (err_recv-WellFormed fd ctx wf))

    received-Answerable :
        (p : Option (List ℕ × ℕ)) (ctx : SocketContext)
        (rest : ℤ × Option (List ℕ × ℕ) × SocketContext)
        → Answerable src_of p ctx
        → Answerable src_of rest.1 rest.2
        → let out = received p ctx rest in Answerable src_of out.1 out.2
    received-Answerable (some p) ctx rest a r = a
    received-Answerable none ctx rest a r = r

    -- Where `socket_receive` returns a packet, an answer to its sender goes over the connection that
    -- the packet came over. The tables are well formed, and a new descriptor is one that is not open.
    pub socket_receive-answer :
        (rounds : List Select) (ctx : SocketContext)
        → WellFormed ctx
        → let out = socket_receive src_of sys rounds ctx in Answerable src_of out.1 out.2
    unfolding socket_receive
    socket_receive-answer [] ctx wf = tt
    socket_receive-answer (readable reads ∷ rounds) ctx wf =
        let scanned = scan src_of reads (length ctx.active_fds) 0 ctx in
        let wf' = scan-WellFormed sys fresh src_of reads (length ctx.active_fds) 0 ctx wf in
        received-Answerable scanned.arrived scanned.after
          (socket_receive src_of sys rounds scanned.after)
          (scan-Answerable reads (length ctx.active_fds) 0 ctx wf)
          (socket_receive-answer rounds scanned.after wf')
    socket_receive-answer (arriving n ∷ rounds) ctx wf =
        socket_receive-answer rounds (accept_all sys n ctx)
          (accept_all-WellFormed sys fresh n ctx wf)
    socket_receive-answer (select_interrupted ∷ rounds) ctx wf = socket_receive-answer rounds ctx wf
    socket_receive-answer (select_error ∷ rounds) ctx wf = tt
