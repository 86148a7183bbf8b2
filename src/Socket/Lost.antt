-- ===== src/Socket/Lost.antt =====
-- src/transport-socket/transport-socket.c: a connection that is closed because a read or a write on it
-- has failed.
use raft_research.Prelude.{
  ℕ, zero, suc, ◌%◌, ◌≡◌, ◌≢◌, refl, List, [], ◌∷◌, Option, none, false, arith, get_or,
}
use raft_research.Socket.{SocketContext, is_open, max_connections, close, remove_active_fd}
use raft_research.Socket.Active.{count, remove_active_fd-count, is_open-without}
use raft_research.Socket.Send.{route}
use raft_research.Socket.Receive.{clear_fd, clear_fds, err_recv}
use raft_research.Socket.WellFormed.{WellFormed}

-- `b` is `a` without the descriptor: it is closed and not active, and the others are as before.
pub record Closed (fd : ℕ) (a b : SocketContext) : Type 0 where
  pub shut : is_open fd b.open_fds ≡ false
  pub inactive : count fd b.active_fds ≡ 0
  pub others_open : (y : ℕ) → y ≢ fd → is_open y b.open_fds ≡ is_open y a.open_fds
  pub others_active : (y : ℕ) → y ≢ fd → count y b.active_fds ≡ count y a.active_fds

pub drop-Closed :
    (fd : ℕ) (ctx : SocketContext)
    → WellFormed ctx
    → Closed fd ctx (remove_active_fd fd (close fd ctx))
drop-Closed fd ctx wf = record {
  shut = ground (arith, is_open-without ctx.open_fds fd fd);
  inactive = ground (arith, remove_active_fd-count ctx.active_fds fd fd, wf.active fd);
  others_open = λ y ne. ground (arith, is_open-without ctx.open_fds fd y, ne);
  others_active = λ y ne. ground (arith, remove_active_fd-count ctx.active_fds fd y, ne);
}

get_or-clear_fds :
    (fd : ℕ) (xs : List (Option ℕ)) (i : ℕ)
    → get_or (clear_fds fd xs) i none ≡ clear_fd fd (get_or xs i none)
get_or-clear_fds fd [] i = refl
get_or-clear_fds fd (x ∷ xs) zero = refl
get_or-clear_fds fd (x ∷ xs) (suc i) = get_or-clear_fds fd xs i

err_recv-route :
    (fd : ℕ) (ctx : SocketContext) (dst : ℕ)
    → route dst (err_recv fd ctx) ≡ clear_fd fd (route dst ctx)
unfolding route err_recv
err_recv-route fd ctx dst = ground (
  arith,
  get_or-clear_fds fd ctx.peer_fds dst,
  get_or-clear_fds fd ctx.client_fds (dst % max_connections),
)

-- When a read on a connection fails, its descriptor is closed and no longer active, no packet goes
-- over it any more, whatever its destination, and all other connections stay as they were. The
-- tables are well formed.
pub err_recv-forgets :
    (fd : ℕ) (ctx : SocketContext)
    → WellFormed ctx
    → Closed fd ctx (err_recv fd ctx)
      × ((dst : ℕ) → route dst (err_recv fd ctx) ≡ clear_fd fd (route dst ctx))
unfolding err_recv
err_recv-forgets fd ctx wf =
    let dropped = drop-Closed fd ctx wf in
    (
      record {
        shut = dropped.shut;
        inactive = dropped.inactive;
        others_open = dropped.others_open;
        others_active = dropped.others_active;
      },
      err_recv-route fd ctx,
    )
