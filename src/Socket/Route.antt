-- ===== src/Socket/Route.antt =====
-- src/transport-socket/transport-socket.c: which connection a packet to a node or client goes over.
use raft_research.Prelude.{
  ℕ, zero, suc, ◌%◌, ◌<◌, ◌≡◌, refl, ap, ◌∙◌, List, [], ◌∷◌, Option, none, some, Bool, arith, ltb,
  leb, ◌&&◌, ◌==◌, if◌then◌else◌, length, get_or, set,
}
use raft_research.Socket.{SocketContext, max_connections}
use raft_research.Socket.Send.{route, set_route}
use raft_research.Socket.Receive.{replace_fd, record_sender}
use raft_research.Socket.WellFormed.{WellFormed, replace_fd-WellFormed}

-- Two ids that share an entry: the same node, or two clients that agree modulo 1024.
abbrev pub same_entry : ℕ → ℕ → ℕ → Bool
same_entry n a b =
    if ltb a n then a == b else leb n b && (a % max_connections == b % max_connections)

get_or-set :
    (xs : List (Option ℕ)) (i j : ℕ) (v : Option ℕ)
    → i < length xs
    → get_or (set xs i v) j none ≡ (if i == j then v else get_or xs j none)
get_or-set [] i j v h = absurd (omega arith)
get_or-set (x ∷ xs) zero zero v h = refl
get_or-set (x ∷ xs) zero (suc j) v h = ground arith
get_or-set (x ∷ xs) (suc i) zero v h = ground arith
get_or-set (x ∷ xs) (suc i) (suc j) v h = get_or-set xs i j v (omega arith) ∙ ground arith

pub route-set_route :
    (a : ℕ) (fd : Option ℕ) (ctx : SocketContext) (b : ℕ)
    → WellFormed ctx
    → route b (set_route a fd ctx) ≡ (if same_entry ctx.num_nodes a b then fd else route b ctx)
unfolding route set_route
route-set_route a fd ctx b wf = ground (
  arith,
  wf.peers,
  wf.clients,
  get_or-set ctx.peer_fds a b fd,
  get_or-set ctx.client_fds (a % max_connections) (b % max_connections) fd,
)

route-replace_fd :
    (old : Option ℕ) (fd : ℕ) (ctx : SocketContext) (b : ℕ)
    → (route b (replace_fd old fd ctx) ≡ route b ctx)
unfolding route
route-replace_fd none fd ctx b = refl
route-replace_fd (some old) fd ctx b = ground arith

replace_fd-num_nodes :
    (old : Option ℕ) (fd : ℕ) (ctx : SocketContext)
    → (replace_fd old fd ctx).num_nodes ≡ ctx.num_nodes
replace_fd-num_nodes none fd ctx = refl
replace_fd-num_nodes (some old) fd ctx = ground arith

-- After a packet from `src` has come over a connection, a packet to `src` goes over that connection,
-- and so does one to a client whose id is that of the client `src` modulo 1024; every other packet
-- goes where it went before. The tables are well formed.
pub record_sender-route :
    (src fd dst : ℕ) (ctx : SocketContext)
    → WellFormed ctx
    → route dst (record_sender src fd ctx)
      ≡ (if same_entry ctx.num_nodes src dst then some fd else route dst ctx)
unfolding record_sender
record_sender-route src fd dst ctx wf =
    let replaced = replace_fd (route src ctx) fd ctx in
    let set_one =
      route-set_route src (some fd) replaced dst
        (replace_fd-WellFormed (route src ctx) fd ctx wf) in
    let nodes = replace_fd-num_nodes (route src ctx) fd ctx in
    set_one
    ∙ ap (λ n. if same_entry n src dst then some fd else route dst replaced) nodes
    ∙ ap (λ r. if same_entry ctx.num_nodes src dst then some fd else r)
        (route-replace_fd (route src ctx) fd ctx dst)
