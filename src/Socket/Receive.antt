-- ===== src/Socket/Receive.antt =====
-- src/transport-socket/transport-socket.c: `socket_receive`.
use raft_research.Prelude.{
  ℕ, zero, suc, List, [], ◌∷◌, Option, none, some, ◌==◌, if◌then◌else◌, length, get_or,
}
use raft_research.Prelude.Int.{ℤ, pos, negsuc}
use raft_research.Socket.{SocketContext, System, accept_all, close, remove_active_fd}
use raft_research.Socket.Stream.{Reading, ReadEnd, whole, nothing, broken, read_loop}
use raft_research.Socket.Send.{route, set_route}

-- `if (fds[j] == fd) fds[j] = -1` for all j.
abbrev pub clear_fd : ℕ → Option ℕ → Option ℕ
clear_fd fd none = none
clear_fd fd (some x) = if x == fd then none else some x

abbrev pub clear_fds : ℕ → List (Option ℕ) → List (Option ℕ)
clear_fds fd [] = []
clear_fds fd (x ∷ xs) = clear_fd fd x ∷ clear_fds fd xs

-- err_recv
unfoldable pub err_recv : ℕ → SocketContext → SocketContext
err_recv fd ctx =
    let closed = remove_active_fd fd (close fd ctx) in
    record closed { peer_fds = clear_fds fd ctx.peer_fds; client_fds = clear_fds fd ctx.client_fds }

-- `if (old_fd != -1 && old_fd != fd) { close(old_fd); remove_active_fd(sctx, old_fd); }`
abbrev pub replace_fd : Option ℕ → ℕ → SocketContext → SocketContext
replace_fd none fd ctx = ctx
replace_fd (some old_fd) fd ctx =
    if old_fd == fd then ctx else remove_active_fd old_fd (close old_fd ctx)

-- The tables after a packet from `src` has come over `fd`.
unfoldable pub record_sender : ℕ → ℕ → SocketContext → SocketContext
record_sender src fd ctx = set_route src (some fd) (replace_fd (route src ctx) fd ctx)

-- What the scan of the active descriptors ends with: a packet, the descriptor it came over, or none.
pub record Scan : Type 0 where
  pub arrived : Option (List ℕ × ℕ)
  pub after : SocketContext

-- A round of the loop by the result of select(): readable descriptors with what read() gives on
-- each, or connections for accept().
pub data Select : Type 0 where
  readable : (ℕ → Option (List Reading)) → Select
  arriving : ℕ → Select
  select_interrupted : Select
  select_error : Select

-- What comes of one active descriptor: nothing where select() did not report it.
abbrev pub read_end : Option (List Reading) → ReadEnd
read_end none = nothing
read_end (some reads) = read_loop reads []

-- The result of the loop, by that of its scan and that of the rounds after it.
abbrev pub received :
    Option (List ℕ × ℕ)
    → SocketContext
    → ℤ × Option (List ℕ × ℕ) × SocketContext
    → ℤ × Option (List ℕ × ℕ) × SocketContext
received (some p) ctx rest = (pos 1, some p, ctx)
received none ctx rest = rest

-- `src_of` reads `header.src` from the bytes of a packet.
module _ (src_of : List ℕ → ℕ) where
  abbrev pub scan_step : ReadEnd → ℕ → SocketContext → Scan → Scan → Scan
  scan_step (whole pkt) fd ctx skipped lost = record {
    arrived = some (pkt, fd);
    after = record_sender (src_of pkt) fd ctx;
  }
  scan_step nothing fd ctx skipped lost = skipped
  scan_step broken fd ctx skipped lost = lost

  -- `for (int i = 0; i < sctx->num_active; i++)`, where `left` is num_active - i: it falls by one
  -- when i grows and when a descriptor is removed.
  unfoldable pub scan : (ℕ → Option (List Reading)) → ℕ → ℕ → SocketContext → Scan
  scan ready zero i ctx = record { arrived = none; after = ctx }
  scan ready (suc left) i ctx =
      let fd = get_or ctx.active_fds i 0 in
      let skipped = scan ready left (suc i) ctx in
      let lost = scan ready left i (err_recv fd ctx) in
      scan_step (read_end (ready fd)) fd ctx skipped lost

  -- The result, with the packet and the descriptor it came over. After the rounds listed, select()
  -- returns 0.
  unfoldable pub socket_receive :
      System → List Select → SocketContext → ℤ × Option (List ℕ × ℕ) × SocketContext
  socket_receive sys [] ctx = (pos 0, none, ctx)
  socket_receive sys (readable ready ∷ rounds) ctx =
      let scanned = scan ready (length ctx.active_fds) 0 ctx in
      received scanned.arrived scanned.after (socket_receive sys rounds scanned.after)
  socket_receive sys (arriving n ∷ rounds) ctx = socket_receive sys rounds (accept_all sys n ctx)
  socket_receive sys (select_interrupted ∷ rounds) ctx = socket_receive sys rounds ctx
  socket_receive sys (select_error ∷ rounds) ctx = (negsuc 0, none, ctx)
