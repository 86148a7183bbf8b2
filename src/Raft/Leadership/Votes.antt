-- ===== src/Raft/Leadership/Votes.antt =====
-- src/raft.c: the votes that a node receives in a run, by the nodes that they come from.
use raft_research.Prelude.{
  ℕ, zero, suc, ◌+◌, ◌≤◌, ◌<◌, ◌≡◌, ap, List, [], ◌∷◌, true, arith, inl, inr, ltb, ◌==◌,
  if◌then◌else◌, Bool-cases,
}
use raft_research.Raft.Dispatch.{Received, packet, timed_out, failed}
use raft_research.Raft.Leadership.Quorum.{tally}
use raft_research.Raft.Leadership.Turn.{vote_in, vote_of}
use raft_research.Raft.Leadership.Elected.{votes_in}

-- 1 for a packet of node `i` with a vote of the term, otherwise 0.
abbrev pub vote_from : ℕ → Received → ℕ → ℕ
vote_from i (packet pkt) term = if pkt.header.src == i then vote_in pkt term else 0
vote_from i timed_out term = 0
vote_from i failed term = 0

abbrev pub votes_from : ℕ → ℕ → List Received → ℕ
votes_from i term [] = 0
votes_from i term (ev ∷ evs) = vote_from i ev term + votes_from i term evs

abbrev sum_below : ℕ → (ℕ → ℕ) → ℕ
sum_below zero f = 0
sum_below (suc n) f = f n + sum_below n f

sum_below_add : (n : ℕ) (f g : ℕ → ℕ) → sum_below n (λ i. f i + g i) ≡ sum_below n f + sum_below n g
sum_below_add zero f g = omega arith
sum_below_add (suc n) f g = omega (arith, sum_below_add n f g)

sum_below_one : (n s v : ℕ) → s < n → v ≤ sum_below n (λ i. if s == i then v else 0)
sum_below_one zero s v h = absurd (omega arith)
sum_below_one (suc n) s v h = elim (Bool-cases (s == n)) [
  | inl last ↦ ground (arith, last)
  | inr before ↦ ground (arith, before, sum_below_one n s v (ground (arith, before, h)))
]

one-sum_below :
    (n term : ℕ) (ev : Received)
    → ((i : ℕ) → 0 < vote_from i ev term → i < n)
    → vote_of ev term ≤ sum_below n (λ i. vote_from i ev term)
one-sum_below n term timed_out known = omega arith
one-sum_below n term failed known = omega arith
one-sum_below n term (packet pkt) known = elim (Bool-cases (ltb 0 (vote_in pkt term))) [
  | inr no_vote ↦
      let none_in : vote_in pkt term ≡ 0 = ground (arith, no_vote) in omega (arith, none_in)
  | inl vote ↦
      let itself : (pkt.header.src == pkt.header.src) ≡ true = ground arith in
      let counts : vote_from pkt.header.src (packet pkt) term ≡ vote_in pkt term =
        ap (λ b. if b then vote_in pkt term else 0) itself in
      sum_below_one n pkt.header.src (vote_in pkt term)
        (known pkt.header.src (omega (arith, counts, ltb-lt (vote_in pkt term) vote)))
]
  where
    ltb-lt : (v : ℕ) → ltb 0 v ≡ true → 0 < v
    ltb-lt v h = ground (arith, h)

-- The votes are no more than those of the nodes together.
votes_in-sum_below :
    (n term : ℕ) (evs : List Received)
    → ((i : ℕ) → 0 < votes_from i term evs → i < n)
    → votes_in term evs ≤ sum_below n (λ i. votes_from i term evs)
votes_in-sum_below n term [] known = omega arith
votes_in-sum_below n term (ev ∷ evs) known =
    let now = one-sum_below n term ev (λ i h. known i (omega (arith, h))) in
    let later = votes_in-sum_below n term evs (λ i h. known i (omega (arith, h))) in
    omega
      (arith, now, later, sum_below_add n (λ i. vote_from i ev term) (λ i. votes_from i term evs))

sum_below-tally :
    (n : ℕ) (f : ℕ → ℕ) → ((i : ℕ) → f i ≤ 1) → sum_below n f ≤ tally n (λ i. ltb 0 (f i))
sum_below-tally zero f once = omega arith
sum_below-tally (suc n) f once = ground (arith, once n, sum_below-tally n f once)

-- Where each node's vote is received once at most, the votes are no more than the nodes with a vote.
pub votes_in-tally :
    (n term : ℕ) (evs : List Received)
    → ((i : ℕ) → votes_from i term evs ≤ 1)
    → ((i : ℕ) → 0 < votes_from i term evs → i < n)
    → votes_in term evs ≤ tally n (λ i. ltb 0 (votes_from i term evs))
votes_in-tally n term evs once known =
    let all = votes_in-sum_below n term evs known in
    let each = sum_below-tally n (λ i. votes_from i term evs) once in omega (arith, all, each)
