-- ===== src/Socket.antt =====
-- src/transport-socket/transport-socket.c: the tables of connections, and the functions that change
-- them. An entry that holds -1 is `none`; `active_fds` is the part of the array below `num_active`.
-- `open_fds` stands for the descriptors that the process holds open besides the listening one.
pub mod Stream
pub mod Send
pub mod Receive
pub mod Active
pub mod WellFormed
pub mod Route
pub mod Lost
pub mod Deliver
use raft_research.Prelude.{
  ℕ, zero, suc, ◌+◌, ◌-◌, ◌%◌, ◌^◌, ◌≡◌, List, [], ◌∷◌, ◌++◌, Option, none, some, Bool, false, ltb,
  leb, ◌==◌, if◌then◌else◌, length, get_elem?, get_or, set, take, replicate,
}
use raft_research.Prelude.Int.{to_u32}
use raft_research.Cstring.{strncpy, split_at, atoi}

abbrev pub max_connections : ℕ
max_connections = 1024

-- `socket_context_t`
pub record SocketContext : Type 0 where
  pub num_nodes : ℕ
  pub peer_addrs : List (List ℕ)
  pub connect_timeout_ms : ℕ
  pub peer_fds : List (Option ℕ)
  pub client_fds : List (Option ℕ)
  pub active_fds : List ℕ
  pub open_fds : List ℕ

-- What the C library gives: `new_fd` the descriptor that socket() or accept() returns for the open
-- ones, `inet_pton` the address that a text denotes.
pub record System : Type 0 where
  pub new_fd : List ℕ → ℕ
  pub inet_pton : List ℕ → Option ℕ

abbrev pub is_open : ℕ → List ℕ → Bool
is_open fd [] = false
is_open fd (x ∷ xs) = let rest = is_open fd xs in if fd == x then Bool.true else rest

-- POSIX: a new descriptor is one that is not open.
abbrev pub IsFresh : System → Type 0
IsFresh sys = (fds : List ℕ) → is_open (sys.new_fd fds) fds ≡ false

abbrev pub without : ℕ → List ℕ → List ℕ
without fd [] = []
without fd (x ∷ xs) = let rest = without fd xs in if fd == x then rest else x ∷ rest

abbrev pub close : ℕ → SocketContext → SocketContext
close fd ctx = record ctx { open_fds = without fd ctx.open_fds }

-- The index at which the loop of `remove_active_fd` stops.
abbrev pub index_of : ℕ → List ℕ → Option ℕ
index_of fd [] = none
index_of fd (x ∷ xs) =
    let rest = index_of fd xs in
    if x == fd then some 0 else elim rest [ none ↦ none | some i ↦ some (suc i) ]

-- The last active descriptor takes the place of the one at the index.
abbrev pub remove_at : List ℕ → Option ℕ → List ℕ
remove_at fds none = fds
remove_at fds (some i) = take (length fds - 1) (set fds i (get_or fds (length fds - 1) 0))

unfoldable pub remove_fd : ℕ → List ℕ → List ℕ
remove_fd fd fds = remove_at fds (index_of fd fds)

abbrev pub remove_active_fd : ℕ → SocketContext → SocketContext
remove_active_fd fd ctx = record ctx { active_fds = remove_fd fd ctx.active_fds }

-- `if (num_active < MAX_CONNECTIONS) active_fds[num_active++] = fd`, with `full` for the other case.
abbrev pub add_active_fd : ℕ → SocketContext → SocketContext → SocketContext
add_active_fd fd full ctx =
    if ltb (length ctx.active_fds) max_connections
    then record ctx { active_fds = ctx.active_fds ++ fd ∷ [] }
    else full

-- `while (1) { new_fd = accept(..); if (new_fd < 0) break; .. }`, where `n` connections are waiting.
unfoldable pub accept_all : System → ℕ → SocketContext → SocketContext
accept_all sys zero ctx = ctx
accept_all sys (suc n) ctx =
    let fd = sys.new_fd ctx.open_fds in
    let accepted = record ctx { open_fds = fd ∷ ctx.open_fds } in
    accept_all sys n (add_active_fd fd (close fd accepted) accepted)

-- The address and the port; a text of 256 bytes or more is cut.
unfoldable pub parse_addr : System → List ℕ → Option (ℕ × ℕ)
parse_addr sys addr_str = elim (split_at 58 (strncpy 256 addr_str)) [
  | none ↦ none
  | some (host, port) ↦ elim (sys.inet_pton host) [
    | none ↦ none
    | some addr ↦ some (addr, to_u32 (atoi port) % 2 ^ 16)
  ]
]

-- The results of socket() and connect().
pub data Connecting : Type 0 where
  no_socket refused in_progress connected : Connecting

unfoldable pub open_peer : System → Connecting → ℕ → SocketContext → Option ℕ × SocketContext
open_peer sys no_socket node_id ctx = (none, ctx)
open_peer sys refused node_id ctx =
    let fd = sys.new_fd ctx.open_fds in
    (none, close fd (record ctx { open_fds = fd ∷ ctx.open_fds }))
open_peer sys _ node_id ctx =
    let fd = sys.new_fd ctx.open_fds in
    let peered = record ctx {
      peer_fds = set ctx.peer_fds node_id (some fd);
      open_fds = fd ∷ ctx.open_fds;
    } in
    (some fd, add_active_fd fd peered peered)

unfoldable pub connect_to_peer : System → Connecting → ℕ → SocketContext → Option ℕ × SocketContext
connect_to_peer sys how node_id ctx =
    if leb ctx.num_nodes node_id
    then (none, ctx)
    else elim (parse_addr sys (get_or ctx.peer_addrs node_id [])) [
      | none ↦ (none, ctx)
      | some addr ↦ open_peer sys how node_id ctx
    ]

-- `transport_socket_init` for the addresses of all nodes, where socket() and bind() succeed: the
-- process exits where they fail, and where its own address cannot be parsed.
abbrev pub init_context : Option (ℕ × ℕ) → List (List ℕ) → ℕ → ℕ → Option SocketContext
init_context none peers num_peers connect_timeout_ms = none
init_context (some addr) peers num_peers connect_timeout_ms = some (record {
  num_nodes = num_peers;
  peer_addrs = take num_peers peers;
  connect_timeout_ms = connect_timeout_ms;
  peer_fds = replicate num_peers none;
  client_fds = replicate max_connections none;
  active_fds = [];
  open_fds = [];
})

unfoldable pub transport_socket_init : System → ℕ → List (List ℕ) → ℕ → ℕ → Option SocketContext
transport_socket_init sys id peers num_peers connect_timeout_ms =
    init_context (parse_addr sys (get_or peers id [])) peers num_peers connect_timeout_ms

-- `transport_free` closes the active descriptors.
abbrev pub close_all : List ℕ → SocketContext → SocketContext
close_all [] ctx = ctx
close_all (fd ∷ fds) ctx = close_all fds (close fd ctx)

abbrev pub transport_free : SocketContext → SocketContext
transport_free ctx = close_all ctx.active_fds ctx
