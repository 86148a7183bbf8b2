-- ===== src/NodeProgram/Start.antt =====
-- src/util-unix/node.c: the node that main() starts, and the loop over the arguments.
use raft_research.Prelude.{
  ℕ, zero, suc, ◌+◌, ◌≤◌, ◌<◌, ◌^◌, ◌≡◌, refl, ap, sym, ◌∙◌, List, Option, none, some, true, false,
  arith, ◌⊎◌, ltb, length, length-take, if◌then◌else◌, length-take,
}
use Prim.Native.Nat.{max}
use raft_research.Client.{parse_peers}
use raft_research.Raft.Node.{RaftNode, is_follower}
use raft_research.NodeProgram.{
  Options, parse_arg, parse_args, config_of, NodeMain, exited, started, Surroundings,
}

-- A node that begins to run: a member of the cluster on the command line, with the log and the fields
-- of its files, and a first timer in the bounds, which are numbers of microseconds there.
pub record Ready (o : Options) (num_peers : ℕ) (s : Surroundings) (node : RaftNode) : Type 0 where
  pub configured : node.config ≡ config_of o num_peers
  pub member : node.config.id < node.config.num_nodes
  pub few : node.config.num_nodes ≤ 128
  pub ordered : node.config.timeout_lb_ms ≤ node.config.timeout_ub_ms
  pub follows : is_follower node.role ≡ true
  pub runs : node.running ≡ true
  pub up : s.transport_up ≡ true
  pub log : node.log ≡ s.log
  pub fields : node.hard_state ≡ s.hard_state
  pub timer_from : node.config.timeout_lb_ms ≤ node.timer.duration_usec
  pub timer_below :
      node.timer.duration_usec < max node.config.timeout_ub_ms (node.config.timeout_lb_ms + 1)

-- Why main() returns 1.
abbrev pub Refused : Options → Surroundings → List ℕ → Type 0
Refused o s peers_str =
    (o.timeout_ub_ms < o.timeout_lb_ms)
    ⊎ (length (parse_peers 128 peers_str) ≤ o.id)
    ⊎ (s.transport_up ≡ false)

abbrev pub Outcome : Options → Option (List ℕ) → Surroundings → NodeMain → Type 0
Outcome o none s end = end ≡ exited 1
Outcome o (some peers_str) s (exited status) = (status ≡ 1) × Refused o s peers_str
Outcome o (some peers_str) s (started node row) =
    Ready o (length (parse_peers 128 peers_str)) s node

-- The bounds of the timeout are words.
abbrev pub IsBounded : Options → Type 0
IsBounded o = (o.timeout_lb_ms < 2 ^ 32) × (o.timeout_ub_ms < 2 ^ 32)

module _ (atof : List ℕ → ℕ) (argv : List (List ℕ)) where
  parse_arg-moves : (i : ℕ) (o : Options) → i ≤ (parse_arg atof argv i o).0
  unfolding parse_arg
  parse_arg-moves i o = ground arith

  parse_args-done :
      (turns i : ℕ) (o : Options) → length argv ≤ i → parse_args atof argv turns i o ≡ o
  unfolding parse_args
  parse_args-done zero i o h = refl
  parse_args-done (suc turns) i o h =
      let done : ltb i (length argv) ≡ false = ground arith in rw done refl

  parse_args-step :
      (turns more i : ℕ) (o : Options)
      → length argv ≤ suc turns + i
      → ((j : ℕ) (p : Options)
          → length argv ≤ turns + j
          → parse_args atof argv (turns + more) j p ≡ parse_args atof argv turns j p)
      → parse_args atof argv (suc (turns + more)) i o ≡ parse_args atof argv (suc turns) i o
  unfolding parse_args
  parse_args-step turns more i o h same =
      let (last, parsed) = parse_arg atof argv i o in
      ap (λ rest. if ltb i (length argv) then rest else o)
        (same (last + 1) parsed (omega (arith, parse_arg-moves i o)))

  -- `argc` turns of the loop over the arguments read them all: with more turns the result is the same.
  pub parse_args-enough :
      (turns more i : ℕ) (o : Options)
      → length argv ≤ turns + i
      → parse_args atof argv (turns + more) i o ≡ parse_args atof argv turns i o
  parse_args-enough zero more i o h =
      parse_args-done (0 + more) i o (omega arith) ∙ sym (parse_args-done 0 i o (omega arith))
  parse_args-enough (suc turns) more i o h =
      let e : suc turns + more ≡ suc (turns + more) = omega arith in
      ap (λ n. parse_args atof argv n i o) e
      ∙ parse_args-step turns more i o h (parse_args-enough turns more)
