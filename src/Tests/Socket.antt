-- ===== src/Tests/Socket.antt =====
-- Examples for the socket transport.
use raft_research.Prelude.{
  ℕ, suc, ◌+◌, ◌≤◌, ◌≡◌, refl, List, [], ◌∷◌, Option, none, some, true, false, arith, if◌then◌else◌,
  length, length-replicate, replicate, get_or,
}
use raft_research.Socket.{
  SocketContext, System, IsFresh, in_progress, is_open, parse_addr, transport_socket_init,
  max_connections,
}
use raft_research.Socket.Stream.{
  wrote, send_loop, Reading, got, read_interrupted, read_blocked, whole, read_loop,
}
use raft_research.Socket.Stream.Framing.{stream_round_trip}
use raft_research.Socket.Send.{ready, interrupted, Sends, find_fd, socket_send, route}
use raft_research.Socket.Receive.{
  Select, readable, arriving, socket_receive, record_sender, err_recv, clear_fd,
}
use raft_research.Socket.WellFormed.{WellFormed}
use raft_research.Socket.WellFormed.Calls.{Reach, started, sent, came, calls-WellFormed}
use raft_research.Socket.Route.{same_entry, record_sender-route}
use raft_research.Socket.Lost.{Closed, err_recv-forgets}
use raft_research.Socket.Deliver.{
  WholeOrClosed, socket_send-whole, Answerable, socket_receive-answer,
}

-- A descriptor above all that are open.
abbrev above : List ℕ → ℕ
above [] = 3
above (x ∷ xs) = suc (x + above xs)

abbrev sys : System
sys = record { new_fd = above; inet_pton = λ host. some (length host) }

above-is_open : (fds : List ℕ) (y : ℕ) → above fds ≤ y → is_open y fds ≡ false
above-is_open [] y h = refl
above-is_open (x ∷ xs) y h = ground (arith, above-is_open xs y (omega arith))

sys-IsFresh : IsFresh sys
sys-IsFresh fds = above-is_open fds (above fds) (omega arith)

-- "1:8" and "2:9"
abbrev addrs : List (List ℕ)
addrs = (49 ∷ 58 ∷ 56 ∷ []) ∷ (50 ∷ 58 ∷ 57 ∷ []) ∷ []

abbrev new_context : SocketContext
new_context = record {
  num_nodes = 2;
  peer_addrs = addrs;
  connect_timeout_ms = 5000;
  peer_fds = replicate 2 none;
  client_fds = replicate max_connections none;
  active_fds = [];
  open_fds = [];
}

-- The low byte of `header.src`.
abbrev src_of : List ℕ → ℕ
src_of bytes = get_or bytes 4 0

abbrev pkt : List ℕ
pkt = replicate 1040 7

-- The packet goes out in two parts after a wait in which one connection comes in.
abbrev calls : Sends
calls = record {
  how = in_progress;
  start = 0;
  rounds = (1, ready (some 1) false) ∷ (2, interrupted) ∷ (3, ready none true) ∷ [];
  so_error = false;
  sends = wrote 1000 ∷ wrote 40 ∷ [];
}

-- Descriptor 5 gives a packet in two parts.
abbrev reads : ℕ → Option (List Reading)
reads fd = some (got (replicate 500 9) ∷ read_blocked false ∷ got (replicate 540 9) ∷ [])

abbrev rounds : List Select
rounds = arriving 2 ∷ readable reads ∷ []

new_context-Reach : Reach sys src_of new_context
unfolding transport_socket_init parse_addr
new_context-Reach = started 0 addrs 5000 refl

new_context-WellFormed : WellFormed new_context
new_context-WellFormed = record {
  peers = refl;
  clients = length-replicate {A = Option ℕ} max_connections none;
  room = omega arith;
  active = λ y. omega arith;
}

calls-WellFormed_example :
    WellFormed (socket_receive src_of sys rounds (socket_send sys calls 1 pkt new_context).2).2
calls-WellFormed_example =
    calls-WellFormed sys sys-IsFresh src_of (came rounds (sent calls 1 pkt new_context-Reach))

socket_send-whole_example :
    WholeOrClosed
      (find_fd sys calls.how 1 new_context).0
      1
      pkt
      (socket_send sys calls 1 pkt new_context)
socket_send-whole_example =
    socket_send-whole sys sys-IsFresh calls 1 pkt new_context new_context-WellFormed
      (length-replicate {A = ℕ} 1040 7)

socket_receive-answer_example :
    let out = socket_receive src_of sys rounds new_context in Answerable src_of out.1 out.2
socket_receive-answer_example =
    socket_receive-answer sys sys-IsFresh src_of rounds new_context new_context-WellFormed

record_sender-route_example :
    route 2023 (record_sender 999 6 new_context)
    ≡ (if same_entry 2 999 2023 then some 6 else route 2023 new_context)
record_sender-route_example = record_sender-route 999 6 2023 new_context new_context-WellFormed

err_recv-forgets_example :
    Closed 5 new_context (err_recv 5 new_context)
    × ((dst : ℕ) → route dst (err_recv 5 new_context) ≡ clear_fd 5 (route dst new_context))
err_recv-forgets_example = err_recv-forgets 5 new_context new_context-WellFormed

stream_round_trip_example :
    read_loop (got (replicate 500 7) ∷ read_interrupted ∷ got (replicate 540 7) ∷ []) [] ≡ whole pkt
unfolding send_loop
stream_round_trip_example =
    stream_round_trip (wrote 1000 ∷ wrote 40 ∷ []) (replicate 500 7)
      (read_interrupted ∷ got (replicate 540 7) ∷ []) pkt (length-replicate {A = ℕ} 1040 7) refl
      (omega arith, (omega arith, tt)) refl
