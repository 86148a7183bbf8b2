-- ===== src/Orchestrator.antt =====
-- src/transport-pipe/orchestrator.c: the process that passes packets between the pipes of the nodes.
-- A write is a node, to whose pipe it goes, with the packet.

pub mod Passes
pub mod Writes
pub mod Shutdown
use raft_research.Prelude.{
  ℕ, zero, suc, ◌+◌, List, [], ◌∷◌, ◌++◌, Option, none, some, Bool, true, false, leb, if◌then◌else◌,
}
use raft_research.Prelude.Int.{ℤ, pos, negsuc, ltb_ℤ}
use raft_research.Transport.{Pkt}
use raft_research.Rpc.Messages.{rpc_shutdown}

-- What read() gives of a packet, `none` where it is not a whole one, and whether write() then takes
-- the whole packet.
pub record Relay : Type 0 where
  pub pkt : Option Pkt
  pub taken : Bool

-- The result, and what is written.
abbrev pub forward_read : Option Pkt → Bool → ℕ → ℤ × List (ℕ × Pkt)
forward_read none taken n = (negsuc 0, [])
forward_read (some pkt) taken n =
    if leb n pkt.header.dst
    then (negsuc 0, [])
    else (if taken then pos 0 else negsuc 0, (pkt.header.dst, pkt) ∷ [])

unfoldable pub forward_pkt : Relay → ℕ → ℤ × List (ℕ × Pkt)
forward_pkt relay n = forward_read relay.pkt relay.taken n

-- Fields that the initialiser does not name are zero.
abbrev pub shutdown_pkt : ℕ → Pkt
shutdown_pkt n = record {
  header = record { dst = n; src = n; payload_n = 0; code = rpc_shutdown };
  payload = λ _. 0;
}

-- `for (int i = 0; i < N; i++)`, where `left` is N - i.
abbrev pub shutdown_from : ℕ → ℕ → ℕ → List (ℕ × Pkt)
shutdown_from n zero i = []
shutdown_from n (suc left) i = (i, shutdown_pkt n) ∷ shutdown_from n left (suc i)

abbrev pub shutdown_all_nodes : ℕ → List (ℕ × Pkt)
shutdown_all_nodes n = shutdown_from n n 0

abbrev pub forward_ready : Option Relay → ℕ → Bool × List (ℕ × Pkt) → Bool × List (ℕ × Pkt)
forward_ready none n rest = rest
forward_ready (some relay) n rest =
    let (rc, writes) = forward_pkt relay n in
    if ltb_ℤ rc (pos 0) then (true, writes) else (rest.0, writes ++ rest.1)

-- The loop over the nodes after select(): `ready` says which pipes have data. The first result says
-- whether it was left because a packet could not be passed on.
unfoldable pub forward_all : (ℕ → Option Relay) → ℕ → ℕ → ℕ → Bool × List (ℕ × Pkt)
forward_all ready n zero i = (false, [])
forward_all ready n (suc left) i =
    let rest = forward_all ready n left (suc i) in forward_ready (ready i) n rest

-- The results of select().
pub data Poll : Type 0 where
  poll_ready : (ℕ → Option Relay) → Poll
  poll_timeout poll_error : Poll

abbrev pub max_msgs : ℕ
max_msgs = 3

-- `while (orchestrator_running)`. After the polls listed, select() returns 0.
unfoldable pub orchestra_rounds : ℕ → ℕ → List Poll → List (ℕ × Pkt)
orchestra_rounds n cnt [] = []
orchestra_rounds n cnt (poll_ready ready ∷ polls) =
    let (failed, writes) = forward_all ready n n 0 in
    let rest = orchestra_rounds n (cnt + 1) polls in
    if leb max_msgs (cnt + 1) then [] else writes ++ (if failed then [] else rest)
orchestra_rounds n cnt (_ ∷ polls) = []

unfoldable pub orchestra_loop : ℕ → List Poll → List (ℕ × Pkt)
orchestra_loop n polls = orchestra_rounds n 0 polls ++ shutdown_all_nodes n
