-- ===== src/Socket/WellFormed.antt =====
-- src/transport-socket/transport-socket.c: the invariant of the tables of connections, for the
-- functions that change them.

pub mod Calls
use raft_research.Prelude.{
  ℕ, zero, suc, ◌≤◌, ◌≡◌, refl, ap, ◌∙◌, ◌==◌, List, [], ◌∷◌, ◌++◌, Option, none, some, true, false,
  arith, inl, inr, ltb, Bool-cases, if◌then◌else◌, length, length-append, length-set, set,
}
use raft_research.Socket.{
  SocketContext, System, IsFresh, Connecting, no_socket, refused, in_progress, connected,
  max_connections, is_open, close, remove_active_fd, add_active_fd, accept_all, open_peer,
}
use raft_research.Socket.Active.{
  count, count-append, remove_active_fd-count, length-remove_fd, is_open-without,
}
use raft_research.Socket.Send.{route, set_route, err_close}
use raft_research.Socket.Receive.{clear_fds, err_recv, replace_fd, record_sender}

-- The tables have the sizes of the arrays, and each active descriptor is open and stands in the
-- array once.
pub record WellFormed (ctx : SocketContext) : Type 0 where
  pub peers : length ctx.peer_fds ≡ ctx.num_nodes
  pub clients : length ctx.client_fds ≡ max_connections
  pub room : length ctx.active_fds ≤ max_connections
  pub active : (y : ℕ) → count y ctx.active_fds ≤ (if is_open y ctx.open_fds then 1 else 0)

pub drop-WellFormed :
    (fd : ℕ) (ctx : SocketContext)
    → WellFormed ctx
    → WellFormed (remove_active_fd fd (close fd ctx))
drop-WellFormed fd ctx wf = record {
  peers = wf.peers;
  clients = wf.clients;
  room = omega (arith, wf.room, length-remove_fd ctx.active_fds fd);
  active = λ y. ground (
    arith,
    remove_active_fd-count ctx.active_fds fd y,
    is_open-without ctx.open_fds fd y,
    wf.active y,
  );
}

-- A descriptor is opened and added.
open-WellFormed :
    (fd : ℕ) (ctx : SocketContext)
    → is_open fd ctx.open_fds ≡ false
    → WellFormed ctx
    → WellFormed (record ctx { open_fds = fd ∷ ctx.open_fds })
open-WellFormed fd ctx fresh wf = record {
  peers = wf.peers;
  clients = wf.clients;
  room = wf.room;
  active = λ y. ground (arith, wf.active y);
}

shut-WellFormed :
    (fd : ℕ) (ctx : SocketContext)
    → is_open fd ctx.open_fds ≡ false
    → WellFormed ctx
    → WellFormed (close fd (record ctx { open_fds = fd ∷ ctx.open_fds }))
shut-WellFormed fd ctx fresh wf = record {
  peers = wf.peers;
  clients = wf.clients;
  room = wf.room;
  active = λ y.
      ground (arith, wf.active y, wf.active fd, fresh, is_open-without (fd ∷ ctx.open_fds) fd y);
}

add-WellFormed :
    (fd : ℕ) (ctx : SocketContext)
    → is_open fd ctx.open_fds ≡ false
    → ltb (length ctx.active_fds) max_connections ≡ true
    → WellFormed ctx
    → WellFormed
        (record ctx { active_fds = ctx.active_fds ++ fd ∷ []; open_fds = fd ∷ ctx.open_fds })
add-WellFormed fd ctx fresh below wf = record {
  peers = wf.peers;
  clients = wf.clients;
  room = ground (arith, below, length-append ctx.active_fds (fd ∷ []));
  active = λ y.
      ground (arith, wf.active y, wf.active fd, fresh, count-append y ctx.active_fds (fd ∷ []));
}

set_route-WellFormed :
    (dst : ℕ) (fd : Option ℕ) (ctx : SocketContext)
    → WellFormed ctx
    → WellFormed (set_route dst fd ctx)
unfolding set_route
set_route-WellFormed dst fd ctx wf = elim (Bool-cases (ltb dst ctx.num_nodes)) [
  | inl node ↦ rw node (record {
    peers = length-set ctx.peer_fds dst fd ∙ wf.peers;
    clients = wf.clients;
    room = wf.room;
    active = wf.active;
  })
  | inr client ↦ rw client (record {
    peers = wf.peers;
    clients = length-set ctx.client_fds _ fd ∙ wf.clients;
    room = wf.room;
    active = wf.active;
  })
]

pub err_close-WellFormed :
    (dst fd : ℕ) (ctx : SocketContext) → WellFormed ctx → WellFormed (err_close dst fd ctx)
unfolding err_close
err_close-WellFormed dst fd ctx wf =
    set_route-WellFormed dst none (remove_active_fd fd (close fd ctx)) (drop-WellFormed fd ctx wf)

length-clear_fds : (fd : ℕ) (xs : List (Option ℕ)) → length (clear_fds fd xs) ≡ length xs
length-clear_fds fd [] = refl
length-clear_fds fd (x ∷ xs) = ap suc (length-clear_fds fd xs)

pub err_recv-WellFormed :
    (fd : ℕ) (ctx : SocketContext) → WellFormed ctx → WellFormed (err_recv fd ctx)
unfolding err_recv
err_recv-WellFormed fd ctx wf =
    let dropped = drop-WellFormed fd ctx wf in
    record {
      peers = length-clear_fds fd ctx.peer_fds ∙ wf.peers;
      clients = length-clear_fds fd ctx.client_fds ∙ wf.clients;
      room = dropped.room;
      active = dropped.active;
    }

pub replace_fd-WellFormed :
    (old : Option ℕ) (fd : ℕ) (ctx : SocketContext)
    → WellFormed ctx
    → WellFormed (replace_fd old fd ctx)
replace_fd-WellFormed none fd ctx wf = wf
replace_fd-WellFormed (some old) fd ctx wf = elim (Bool-cases (old == fd)) [
  | inl same ↦ rw same wf
  | inr other ↦ rw other (drop-WellFormed old ctx wf)
]

pub record_sender-WellFormed :
    (src fd : ℕ) (ctx : SocketContext) → WellFormed ctx → WellFormed (record_sender src fd ctx)
unfolding record_sender
record_sender-WellFormed src fd ctx wf =
    set_route-WellFormed src (some fd) (replace_fd (route src ctx) fd ctx)
      (replace_fd-WellFormed (route src ctx) fd ctx wf)

module _ (sys : System) (fresh : IsFresh sys) where
  pub accept_all-WellFormed :
      (n : ℕ) (ctx : SocketContext) → WellFormed ctx → WellFormed (accept_all sys n ctx)
  unfolding accept_all
  accept_all-WellFormed zero ctx wf = wf
  accept_all-WellFormed (suc n) ctx wf =
      let fd = sys.new_fd ctx.open_fds in
      let accepted = record ctx { open_fds = fd ∷ ctx.open_fds } in
      elim (Bool-cases (ltb (length ctx.active_fds) max_connections)) [
        | inl below ↦ rw below (
            accept_all-WellFormed n (record accepted { active_fds = ctx.active_fds ++ fd ∷ [] })
              (add-WellFormed fd ctx (fresh ctx.open_fds) below wf))
        | inr full ↦ rw full (
            accept_all-WellFormed n (close fd accepted)
              (shut-WellFormed fd ctx (fresh ctx.open_fds) wf))
      ]

  -- A connection to a peer that has been set up.
  peered-WellFormed :
      (id : ℕ) (ctx : SocketContext)
      → WellFormed ctx
      → let fd = sys.new_fd ctx.open_fds in
        let peered = record ctx {
          peer_fds = set ctx.peer_fds id (some fd);
          open_fds = fd ∷ ctx.open_fds;
        } in
        WellFormed (add_active_fd fd peered peered)
  peered-WellFormed id ctx wf =
      let fd = sys.new_fd ctx.open_fds in
      let new = fresh ctx.open_fds in
      let named = record ctx { peer_fds = set ctx.peer_fds id (some fd) } in
      let named_wf : WellFormed named = record {
        peers = length-set ctx.peer_fds id (some fd) ∙ wf.peers;
        clients = wf.clients;
        room = wf.room;
        active = wf.active;
      } in
      elim (Bool-cases (ltb (length ctx.active_fds) max_connections)) [
        | inl below ↦ rw below (add-WellFormed fd named new below named_wf)
        | inr full ↦ rw full (open-WellFormed fd named new named_wf)
      ]

  pub open_peer-WellFormed :
      (how : Connecting) (id : ℕ) (ctx : SocketContext)
      → WellFormed ctx
      → WellFormed (open_peer sys how id ctx).1
  unfolding open_peer
  open_peer-WellFormed no_socket id ctx wf = wf
  open_peer-WellFormed refused id ctx wf =
      shut-WellFormed (sys.new_fd ctx.open_fds) ctx (fresh ctx.open_fds) wf
  open_peer-WellFormed in_progress id ctx wf = peered-WellFormed id ctx wf
  open_peer-WellFormed connected id ctx wf = peered-WellFormed id ctx wf
