-- ===== src/Orchestrator/Passes.antt =====
-- src/transport-pipe/orchestrator.c: what becomes of the packets that arrive.
use raft_research.Prelude.{
  ℕ, zero, suc, ◌+◌, ◌≡◌, refl, ap, ◌∙◌, List, [], ◌∷◌, ◌++◌, Option, none, some, Bool, true, false,
  arith, inl, inr, leb, Bool-cases, if◌then◌else◌,
}
use raft_research.Prelude.Int.{ltb_ℤ, pos}
use raft_research.Transport.{Pkt}
use raft_research.Orchestrator.{
  Relay, forward_read, forward_pkt, forward_ready, forward_all, Poll, poll_ready, poll_timeout,
  poll_error, max_msgs, orchestra_rounds,
}

abbrev pub add_relay : Option Relay → List Relay → List Relay
add_relay none relays = relays
add_relay (some relay) relays = relay ∷ relays

-- The packets that read() gives in a round of select(), by the number of their node.
abbrev pub relays_from : (ℕ → Option Relay) → ℕ → ℕ → List Relay
relays_from ready zero i = []
relays_from ready (suc left) i = add_relay (ready i) (relays_from ready left (suc i))

-- Those of the first `k` rounds, before select() gives a timeout or an error.
abbrev pub arrivals : ℕ → ℕ → List Poll → List Relay
arrivals n zero polls = []
arrivals n (suc k) (poll_ready ready ∷ polls) = relays_from ready n 0 ++ arrivals n k polls
arrivals n (suc k) _ = []

-- What becomes of one packet, and of those after it: the orchestrator stops at what is not a whole
-- packet, at a destination that is no node, and after a packet that write() does not take.
abbrev pub pass_read : Option Pkt → Bool → ℕ → List (ℕ × Pkt) → List (ℕ × Pkt)
pass_read none taken n later = []
pass_read (some pkt) taken n later =
    if leb n pkt.header.dst then [] else (pkt.header.dst, pkt) ∷ (if taken then later else [])

-- The packets written for those that arrive: the same, in the same order, each to its destination.
abbrev pub pass_on : ℕ → List Relay → List (ℕ × Pkt)
pass_on n [] = []
pass_on n (relay ∷ relays) = pass_read relay.pkt relay.taken n (pass_on n relays)

-- The rest of a run, unless the round was left.
abbrev unless_left : Bool × List (ℕ × Pkt) → List (ℕ × Pkt) → List (ℕ × Pkt)
unless_left (failed, writes) more = writes ++ (if failed then [] else more)

forward_read-pass :
    (o : Option Pkt) (taken : Bool) (n : ℕ) (rest : Bool × List (ℕ × Pkt)) (more : List (ℕ × Pkt))
    → let (rc, writes) = forward_read o taken n in
      pass_read o taken n (unless_left rest more)
      ≡ unless_left (if ltb_ℤ rc (pos 0) then (true, writes) else (rest.0, writes ++ rest.1)) more
forward_read-pass none taken n rest more = refl
forward_read-pass (some pkt) taken n rest more = elim (Bool-cases (leb n pkt.header.dst)) [
  | inl out ↦ rw out refl
  | inr known ↦ elim (Bool-cases taken) [
    | inl good ↦ rw (known, good) refl
    | inr bad ↦ rw (known, bad) refl
  ]
]

forward_ready-pass :
    (o : Option Relay) (n : ℕ) (relays : List Relay) (rest : Bool × List (ℕ × Pkt))
    (more : List (ℕ × Pkt))
    → pass_on n relays ≡ unless_left rest more
    → pass_on n (add_relay o relays) ≡ unless_left (forward_ready o n rest) more
unfolding forward_pkt
forward_ready-pass none n relays rest more same = same
forward_ready-pass (some relay) n relays rest more same =
    ap (pass_read relay.pkt relay.taken n) same
    ∙ forward_read-pass relay.pkt relay.taken n rest more

add_relay-append :
    (o : Option Relay) (xs ys : List Relay) → add_relay o xs ++ ys ≡ add_relay o (xs ++ ys)
add_relay-append none xs ys = refl
add_relay-append (some relay) xs ys = refl

forward_all-pass :
    (ready : ℕ → Option Relay) (n left i : ℕ) (more : List Relay)
    → pass_on n (relays_from ready left i ++ more)
      ≡ unless_left (forward_all ready n left i) (pass_on n more)
unfolding forward_all
forward_all-pass ready n zero i more = refl
forward_all-pass ready n (suc left) i more =
    ap (pass_on n) (add_relay-append (ready i) (relays_from ready left (suc i)) more)
    ∙ forward_ready-pass (ready i) n (relays_from ready left (suc i) ++ more)
        (forward_all ready n left (suc i)) (pass_on n more)
        (forward_all-pass ready n left (suc i) more)

-- The rounds that are left when `cnt` are done.
pub rounds-pass :
    (n cnt left : ℕ) (polls : List Poll)
    → cnt + left ≡ 2
    → pass_on n (arrivals n left polls) ≡ orchestra_rounds n cnt polls
unfolding orchestra_rounds
rounds-pass n cnt zero [] h = refl
rounds-pass n cnt (suc left) [] h = refl
rounds-pass n cnt zero (poll_timeout ∷ polls) h = refl
rounds-pass n cnt (suc left) (poll_timeout ∷ polls) h = refl
rounds-pass n cnt zero (poll_error ∷ polls) h = refl
rounds-pass n cnt (suc left) (poll_error ∷ polls) h = refl
rounds-pass n cnt zero (poll_ready ready ∷ polls) h =
    let over : leb max_msgs (cnt + 1) ≡ true = ground arith in rw over refl
rounds-pass n cnt (suc left) (poll_ready ready ∷ polls) h =
    let goes : leb max_msgs (cnt + 1) ≡ false = ground arith in
    rw goes (
      forward_all-pass ready n n 0 (arrivals n left polls)
      ∙ ap (unless_left (forward_all ready n n 0))
          (rounds-pass n (cnt + 1) left polls (omega arith)))
