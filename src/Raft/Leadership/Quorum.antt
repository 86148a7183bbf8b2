-- ===== src/Raft/Leadership/Quorum.antt =====
-- src/raft.c: the votes of all nodes of a cluster in one term, each node with its own run of the main
-- loop.
use raft_research.Prelude.{
  ℕ, zero, suc, ◌+◌, ◌*◌, ◌≤◌, ◌<◌, ◌≡◌, refl, ap, sym, ◌∙◌, inl, inr, List, [], ◌∷◌, ◌++◌, Bool,
  true, false, ◌&&◌, leb, arith, Bool-cases, if◌then◌else◌, take, drop,
}
use raft_research.Float.{Double}
use raft_research.Raft.Node.{RaftNode}
use raft_research.Raft.Vote.Grant.{IsNatural}
use raft_research.Raft.Dispatch.{Received, run_turn, raft_run, is_none}
use raft_research.Raft.Progress.Loop.{AllBytes}
use raft_research.Raft.Leadership.Run.{HasVoted, raft_run-vote}

-- The number of nodes below `n` that a test picks.
abbrev pub tally : ℕ → (ℕ → Bool) → ℕ
tally zero picks = 0
tally (suc n) picks = let rest = tally n picks in if picks n then suc rest else rest

below :
    (n : ℕ) (xs ys : ℕ → Bool)
    → (i : ℕ) × (i < n) × (xs i ≡ true) × (ys i ≡ true)
    → (i : ℕ) × (i < suc n) × (xs i ≡ true) × (ys i ≡ true)
below n xs ys (i, lt, a, b) = (i, omega (arith, lt), a, b)

both :
    (n : ℕ) (xs ys : ℕ → Bool)
    → n < tally n xs + tally n ys
    → (i : ℕ) × (i < n) × (xs i ≡ true) × (ys i ≡ true)
both zero xs ys h = absurd (omega arith)
both (suc n) xs ys h = elim (Bool-cases (xs n)) [
  | inl a ↦ elim (Bool-cases (ys n)) [
    | inl b ↦ (n, omega arith, a, b)
    | inr b ↦ below n xs ys (both n xs ys (ground (arith, a, b, h)))
  ]
  | inr a ↦ below n xs ys (both n xs ys (ground (arith, a, h)))
]

module _ (fp : Double) where
  -- A run that has ended stays as it is.
  pub ended :
      (evs : List Received) (node : RaftNode)
      → (node.running && is_none node.io.exit_status) ≡ false
      → raft_run fp evs node ≡ node
  unfolding raft_run
  ended [] node e = refl
  ended (ev ∷ evs) node e = rw e refl

  pub raft_run-append :
      (xs ys : List Received) (node : RaftNode)
      → raft_run fp (xs ++ ys) node ≡ raft_run fp ys (raft_run fp xs node)
  unfolding raft_run
  raft_run-append [] ys node = refl
  raft_run-append (ev ∷ xs) ys node =
      elim (Bool-cases (node.running && is_none node.io.exit_status)) [
        | inl goes ↦ rw goes (raft_run-append xs ys (run_turn fp ev node))
        | inr ends ↦ rw ends (sym (ended ys node ends))
      ]

  AllBytes-drop : (k : ℕ) (evs : List Received) → AllBytes fp evs → AllBytes fp (drop k evs)
  AllBytes-drop zero evs b = b
  AllBytes-drop (suc k) [] b = tt
  AllBytes-drop (suc k) (ev ∷ evs) b = AllBytes-drop k evs b.1

  pub AllBytes-take : (k : ℕ) (evs : List Received) → AllBytes fp evs → AllBytes fp (take k evs)
  AllBytes-take zero evs b = tt
  AllBytes-take (suc k) [] b = tt
  AllBytes-take (suc k) (ev ∷ evs) b = (b.0, AllBytes-take k evs b.1)

  -- After `at` turns of a run the node has the term, and has voted for the candidate.
  pub record Voted (evs : List Received) (node : RaftNode) (term candidate : ℕ) : Type 0 where
    pub at : ℕ
    pub small : IsNatural (raft_run fp (take at evs) node).hard_state
    pub voted : HasVoted (raft_run fp (take at evs) node)
    pub in_term : (raft_run fp (take at evs) node).hard_state.current_term ≡ term
    pub vote : (raft_run fp (take at evs) node).hard_state.voted_for ≡ candidate

  take-split :
      (j k : ℕ) (evs : List Received) → j ≤ k → take k evs ≡ take j evs ++ drop j (take k evs)
  take-split zero k evs h = refl
  take-split (suc j) zero evs h = absurd (omega arith)
  take-split (suc j) (suc k) [] h = refl
  take-split (suc j) (suc k) (ev ∷ evs) h = ap (λ r. ev ∷ r) (take-split j k evs (omega arith))

  -- The earlier of two votes in a term is the later one.
  same_vote :
      (evs : List Received) (node : RaftNode) (term a b : ℕ)
      → AllBytes fp evs
      → (p : Voted evs node term a) → (q : Voted evs node term b) → p.at ≤ q.at
      → a ≡ b
  same_vote evs node term a b bytes p q h =
      let first = raft_run fp (take p.at evs) node in
      let between = drop p.at (take q.at evs) in
      let path : raft_run fp (take q.at evs) node ≡ raft_run fp between first =
        ap (λ es. raft_run fp es node) (take-split p.at q.at evs h)
        ∙ raft_run-append (take p.at evs) between node in
      let term_kept : (raft_run fp between first).hard_state.current_term
          ≡ first.hard_state.current_term =
        sym (ap (λ n. n.hard_state.current_term) path) ∙ q.in_term ∙ sym p.in_term in
      let kept =
        raft_run-vote fp between first
          (AllBytes-drop p.at (take q.at evs) (AllBytes-take q.at evs bytes)) p.small p.voted
          term_kept in
      sym p.vote ∙ sym kept.1 ∙ sym (ap (λ n. n.hard_state.voted_for) path) ∙ q.vote

  one_vote :
      (evs : List Received) (node : RaftNode) (term a b : ℕ)
      → AllBytes fp evs
      → Voted evs node term a
      → Voted evs node term b
      → a ≡ b
  one_vote evs node term a b bytes p q = elim (Bool-cases (leb p.at q.at)) [
    | inl first ↦ same_vote evs node term a b bytes p q (ground (arith, first))
    | inr later ↦ sym (same_vote evs node term b a bytes q p (ground (arith, later)))
  ]

  -- Each node of a cluster runs the main loop on its own, whatever packets of bytes it receives and
  -- however its timers run. If more than half of the nodes have voted for one candidate in a term,
  -- and more than half for another in the same term, no matter when, the two are the same. A node
  -- counts as having voted for a candidate when it is no candidate itself at that moment; a leader
  -- counts with the vote for itself.
  pub majorities-agree :
      (n : ℕ) (evs : ℕ → List Received) (nodes : ℕ → RaftNode) (term a b : ℕ)
      → (xs ys : ℕ → Bool) → ((i : ℕ) → AllBytes fp (evs i))
      → ((i : ℕ) → xs i ≡ true → Voted (evs i) (nodes i) term a)
      → ((i : ℕ) → ys i ≡ true → Voted (evs i) (nodes i) term b)
      → n < 2 * tally n xs
      → n < 2 * tally n ys
      → a ≡ b
  majorities-agree n evs nodes term a b xs ys bytes for_a for_b most_a most_b =
      let (i, lt, in_a, in_b) = both n xs ys (omega (arith, most_a, most_b)) in
      one_vote (evs i) (nodes i) term a b (bytes i) (for_a i in_a) (for_b i in_b)
