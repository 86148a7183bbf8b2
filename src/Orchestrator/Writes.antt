-- ===== src/Orchestrator/Writes.antt =====
-- src/transport-pipe/orchestrator.c: what the loop writes to the pipes of the nodes.
use raft_research.Prelude.{
  ℕ, zero, suc, ◌+◌, ◌*◌, ◌≤◌, ◌<◌, ◌≡◌, refl, ap, sym, subst, ◌∙◌, List, [], ◌∷◌, ◌++◌, Option,
  none, some, Bool, true, false, arith, inl, inr, leb, Bool-cases, length, length-append, get_elem?,
}
use raft_research.Prelude.Int.{ltb_ℤ, pos}
use raft_research.Transport.{Pkt}
use raft_research.Float.{Double}
use raft_research.Raft.Node.{RaftNode}
use raft_research.Raft.Dispatch.{packet, handle_received}
use raft_research.Orchestrator.{
  Relay, forward_read, forward_pkt, forward_ready, forward_all, shutdown_pkt, shutdown_from,
  shutdown_all_nodes, Poll, poll_ready, poll_timeout, poll_error, max_msgs, orchestra_rounds,
  orchestra_loop,
}
use raft_research.Orchestrator.Passes.{arrivals, pass_on, rounds-pass}

-- Packets that go to their destinations, which are nodes.
abbrev pub AllRouted : ℕ → List (ℕ × Pkt) → Type 0
AllRouted n [] = Unit {0}
AllRouted n ((i, pkt) ∷ writes) = (i ≡ pkt.header.dst) × (i < n) × AllRouted n writes

append-AllRouted :
    (n : ℕ) (xs ys : List (ℕ × Pkt)) → AllRouted n xs → AllRouted n ys → AllRouted n (xs ++ ys)
append-AllRouted n [] ys p q = q
append-AllRouted n ((i, pkt) ∷ xs) ys p q = (p.0, p.1, append-AllRouted n xs ys p.2 q)

-- A part of the writes: routed, and no more than a number of them.
record Routed (n most : ℕ) (writes : List (ℕ × Pkt)) : Type 0 where
  routed : AllRouted n writes
  few : length writes ≤ most

append-Routed :
    (n a b : ℕ) (xs ys : List (ℕ × Pkt))
    → Routed n a xs
    → Routed n b ys
    → Routed n (a + b) (xs ++ ys)
append-Routed n a b xs ys p q = record {
  routed = append-AllRouted n xs ys p.routed q.routed;
  few = omega (arith, length-append xs ys, p.few, q.few);
}

forward_read-Routed :
    (o : Option Pkt) (taken : Bool) (n : ℕ) → Routed n 1 (forward_read o taken n).1
forward_read-Routed none taken n = record { routed = tt; few = omega arith }
forward_read-Routed (some pkt) taken n = elim (Bool-cases (leb n pkt.header.dst)) [
  | inl out ↦ rw out (record { routed = tt; few = omega arith })
  | inr known ↦
      let near : pkt.header.dst < n = ground (arith, known) in
      rw known (record { routed = (refl, near, tt); few = omega arith })
]

forward_ready-Routed :
    (o : Option Relay) (n most : ℕ) (rest : Bool × List (ℕ × Pkt))
    → Routed n most rest.1
    → Routed n (1 + most) (forward_ready o n rest).1
unfolding forward_pkt
forward_ready-Routed none n most rest p = record { routed = p.routed; few = omega (arith, p.few) }
forward_ready-Routed (some relay) n most rest p =
    let one = forward_read-Routed relay.pkt relay.taken n in
    elim (Bool-cases (ltb_ℤ (forward_read relay.pkt relay.taken n).0 (pos 0))) [
      | inl bad ↦ rw bad (record { routed = one.routed; few = omega (arith, one.few) })
      | inr good ↦
          rw good (append-Routed n 1 most (forward_read relay.pkt relay.taken n).1 rest.1 one p)
    ]

forward_all-Routed :
    (ready : ℕ → Option Relay) (n left i : ℕ) → Routed n left (forward_all ready n left i).1
unfolding forward_all
forward_all-Routed ready n zero i = record { routed = tt; few = omega arith }
forward_all-Routed ready n (suc left) i =
    let rest =
      forward_ready-Routed (ready i) n left (forward_all ready n left (suc i))
        (forward_all-Routed ready n left (suc i)) in
    record { routed = rest.routed; few = omega (arith, rest.few) }

empty-Routed : (n most : ℕ) → Routed n most []
empty-Routed n most = record { routed = tt; few = omega arith }

-- The rounds that are left when `cnt` are done.
rounds-Routed :
    (n cnt left : ℕ) (polls : List Poll)
    → cnt + left ≡ 2
    → Routed n (n * left) (orchestra_rounds n cnt polls)
unfolding orchestra_rounds
rounds-Routed n cnt left [] h = empty-Routed n (n * left)
rounds-Routed n cnt left (poll_timeout ∷ polls) h = empty-Routed n (n * left)
rounds-Routed n cnt left (poll_error ∷ polls) h = empty-Routed n (n * left)
rounds-Routed n cnt zero (poll_ready ready ∷ polls) h =
    let over : leb max_msgs (cnt + 1) ≡ true = ground arith in rw over (empty-Routed n (n * 0))
rounds-Routed n cnt (suc left) (poll_ready ready ∷ polls) h =
    let goes : leb max_msgs (cnt + 1) ≡ false = ground arith in
    let now = forward_all-Routed ready n n 0 in
    let later = rounds-Routed n (cnt + 1) left polls (omega arith) in
    let e : n + n * left ≡ n * suc left = grind arith in
    elim (Bool-cases (forward_all ready n n 0).0) [
      | inl failed ↦
          rw (goes, failed)
            (subst (λ m. Routed n m ((forward_all ready n n 0).1 ++ [])) e
              (append-Routed n n (n * left) (forward_all ready n n 0).1 [] now
                (empty-Routed n (n * left))))
      | inr passed ↦
          rw (goes, passed)
            (subst
              (λ m. Routed n m ((forward_all ready n n 0).1 ++ orchestra_rounds n (cnt + 1) polls))
              e
              (append-Routed n n (n * left) (forward_all ready n n 0).1
                (orchestra_rounds n (cnt + 1) polls) now later))
    ]

shutdown_from-each :
    (n left i k : ℕ)
    → k < left
    → get_elem? (shutdown_from n left i) k ≡ some (i + k, shutdown_pkt n)
shutdown_from-each n zero i k h = absurd (omega arith)
shutdown_from-each n (suc left) i zero h =
    let e : i ≡ i + 0 = omega arith in ap (λ m. some (m, shutdown_pkt n)) e
shutdown_from-each n (suc left) i (suc k) h =
    let e : suc i + k ≡ i + suc k = omega arith in
    shutdown_from-each n left (suc i) k (omega arith) ∙ ap (λ m. some (m, shutdown_pkt n)) e

length-shutdown_from : (n left i : ℕ) → length (shutdown_from n left i) ≡ left
length-shutdown_from n zero i = refl
length-shutdown_from n (suc left) i = ap suc (length-shutdown_from n left (suc i))

-- What a run of the loop writes.
pub record Orchestrated (n : ℕ) (polls : List Poll) (writes : List (ℕ × Pkt)) : Type 0 where
  pub forwarded : List (ℕ × Pkt)
  pub split : writes ≡ forwarded ++ shutdown_all_nodes n
  pub passed : forwarded ≡ pass_on n (arrivals n 2 polls)
  pub routed : AllRouted n forwarded
  pub few : length forwarded ≤ n * 2
  pub shutdowns : length (shutdown_all_nodes n) ≡ n
  pub each : (i : ℕ) → i < n → get_elem? (shutdown_all_nodes n) i ≡ some (i, shutdown_pkt n)

-- Whatever the `n` nodes send, and whichever calls fail: the packets that the first two rounds of
-- select() read, in their order, are written unchanged, each to the pipe of its destination, which is a
-- node, up to the first that is not whole, is for no node, or is not taken whole by write(). They are at
-- most 2n, and after them one shutdown packet is written to each node.
pub orchestra_loop-writes :
    (n : ℕ) (polls : List Poll) → Orchestrated n polls (orchestra_loop n polls)
unfolding orchestra_loop
orchestra_loop-writes n polls =
    let rounds = rounds-Routed n 0 2 polls (omega arith) in
    record {
      forwarded = orchestra_rounds n 0 polls;
      split = refl;
      passed = sym (rounds-pass n 0 2 polls (omega arith));
      routed = rounds.routed;
      few = rounds.few;
      shutdowns = length-shutdown_from n n 0;
      each = λ i h.
          let e : 0 + i ≡ i = omega arith in
          shutdown_from-each n n 0 i h ∙ ap (λ m. some (m, shutdown_pkt n)) e;
    }

-- A node that receives the shutdown packet stops, and changes nothing else.
pub shutdown_pkt-stops :
    (fp : Double) (n : ℕ) (node : RaftNode)
    → handle_received fp (packet (shutdown_pkt n)) node ≡ record node { running = false }
unfolding handle_received
shutdown_pkt-stops fp n node = refl
