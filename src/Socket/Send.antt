-- ===== src/Socket/Send.antt =====
-- src/transport-socket/transport-socket.c: `socket_send`.
use raft_research.Prelude.{
  ℕ, ◌*◌, ◌%◌, List, [], ◌∷◌, Option, none, some, Bool, true, false, ltb, leb, if◌then◌else◌,
  get_or, set,
}
use raft_research.Prelude.Int.{ℤ, pos, negsuc, sub64}
use raft_research.Socket.{
  SocketContext, System, Connecting, max_connections, accept_all, connect_to_peer, close,
  remove_active_fd,
}
use raft_research.Socket.Stream.{Sending, send_loop}

-- A round of the loop that waits until the connection is writable: the time at its start, and the
-- result of select(). `ready` says whether the listening descriptor is readable and how many
-- connections accept() then takes, and whether the connection is writable.
pub data Waiting : Type 0 where
  ready : Option ℕ → Bool → Waiting
  not_ready interrupted wait_error : Waiting

-- Whether the loop ends with a `break`. After the rounds listed, the time is up.
unfoldable pub wait_writable :
    System → ℕ → List (ℕ × Waiting) → SocketContext → Bool × SocketContext
wait_writable sys start [] ctx = (false, ctx)
wait_writable sys start ((now, ready (some n) writable) ∷ rounds) ctx =
    let accepted = accept_all sys n ctx in
    let rest = wait_writable sys start rounds accepted in
    if leb (ctx.connect_timeout_ms * 1000) (sub64 now start)
    then (false, ctx)
    else if writable
    then (true, accepted)
    else rest
wait_writable sys start ((now, ready none writable) ∷ rounds) ctx =
    let rest = wait_writable sys start rounds ctx in
    if leb (ctx.connect_timeout_ms * 1000) (sub64 now start)
    then (false, ctx)
    else if writable
    then (true, ctx)
    else rest
wait_writable sys start ((now, wait_error) ∷ rounds) ctx = (false, ctx)
wait_writable sys start ((now, _) ∷ rounds) ctx =
    let rest = wait_writable sys start rounds ctx in
    if leb (ctx.connect_timeout_ms * 1000) (sub64 now start) then (false, ctx) else rest

-- The entry of the tables for a destination.
unfoldable pub route : ℕ → SocketContext → Option ℕ
route dst ctx =
    if ltb dst ctx.num_nodes
    then get_or ctx.peer_fds dst none
    else get_or ctx.client_fds (dst % max_connections) none

unfoldable pub set_route : ℕ → Option ℕ → SocketContext → SocketContext
set_route dst fd ctx =
    if ltb dst ctx.num_nodes
    then record ctx { peer_fds = set ctx.peer_fds dst fd }
    else record ctx { client_fds = set ctx.client_fds (dst % max_connections) fd }

-- What the calls during one `socket_send` give.
pub record Sends : Type 0 where
  pub how : Connecting
  pub start : ℕ
  pub rounds : List (ℕ × Waiting)
  pub so_error : Bool
  pub sends : List Sending

-- The descriptor that the packet is to go to.
abbrev pub fd_or_connect :
    System → Connecting → ℕ → Option ℕ → SocketContext → Option ℕ × SocketContext
fd_or_connect sys how dst (some fd) ctx = (some fd, ctx)
fd_or_connect sys how dst none ctx =
    if ltb dst ctx.num_nodes then connect_to_peer sys how dst ctx else (none, ctx)

abbrev pub find_fd : System → Connecting → ℕ → SocketContext → Option ℕ × SocketContext
find_fd sys how dst ctx = fd_or_connect sys how dst (route dst ctx) ctx

-- err_close
unfoldable pub err_close : ℕ → ℕ → SocketContext → SocketContext
err_close dst fd ctx = set_route dst none (remove_active_fd fd (close fd ctx))

-- The part after the descriptor is writable. The second result is what is written to it.
unfoldable pub write_pkt : Sends → List ℕ → ℕ → ℕ → SocketContext → ℤ × List ℕ × SocketContext
write_pkt calls pkt dst fd ctx =
    let out = send_loop calls.sends pkt 0 in
    if calls.so_error
    then (negsuc 0, [], err_close dst fd ctx)
    else if out.0
    then (pos 0, out.1, ctx)
    else (negsuc 0, out.1, err_close dst fd ctx)

abbrev pub send_over :
    System → Sends → ℕ → List ℕ → Option ℕ → SocketContext → ℤ × List ℕ × SocketContext
send_over sys calls dst pkt none ctx = (negsuc 0, [], ctx)
send_over sys calls dst pkt (some fd) ctx =
    let (writable, waited) = wait_writable sys calls.start calls.rounds ctx in
    if writable then write_pkt calls pkt dst fd waited else (negsuc 0, [], waited)

unfoldable pub socket_send :
    System → Sends → ℕ → List ℕ → SocketContext → ℤ × List ℕ × SocketContext
socket_send sys calls dst pkt ctx =
    let (fd, found) = find_fd sys calls.how dst ctx in send_over sys calls dst pkt fd found
