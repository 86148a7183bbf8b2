-- ===== src/Raft/Replicate/Commit.antt =====
-- src/raft.c, the loop of `handle_append_entries_response` over the log: which entry is committed.
use raft_research.Prelude.{
  ℕ, zero, suc, ◌<◌, ◌≡◌, refl, sym, ap, subst, ◌∙◌, ◌⊎◌, inl, inr, Bool, true, false, ◌&&◌, arith,
  ◌==◌, Bool-cases,
}
use raft_research.Prelude.Int.{ℤ, pos, ◌+ℤ◌, ◌≤ℤ◌, ◌<ℤ◌}
use raft_research.Raft.Node.{RaftNode, raft_get_log_term}
use raft_research.Raft.Replicate.{has_majority, commit_step, commit_rounds}

-- Entry `n` is of the term, and a majority of the nodes has it.
abbrev pub may_commit : ℕ → RaftNode → ℤ → Bool
may_commit cur_term node n = raft_get_log_term node.log n == cur_term && has_majority node n

commit_step-fit :
    (cur_term : ℕ) (n : ℤ) (node : RaftNode)
    → may_commit cur_term node n ≡ true
    → commit_step cur_term n node ≡ record node { commit_index = n }
unfolding commit_step
commit_step-fit cur_term n node fit = rw fit refl

commit_step-unfit :
    (cur_term : ℕ) (n : ℤ) (node : RaftNode)
    → may_commit cur_term node n ≡ false
    → commit_step cur_term n node ≡ node
unfolding commit_step
commit_step-unfit cur_term n node unfit = rw unfit refl

commit_rounds-fit :
    (cur_term k : ℕ) (n : ℤ) (node : RaftNode)
    → may_commit cur_term node n ≡ true
    → commit_rounds cur_term k (n +ℤ pos 1) (record node { commit_index = n })
      ≡ commit_rounds cur_term (suc k) n node
unfolding commit_rounds
commit_rounds-fit cur_term k n node fit =
    ap (commit_rounds cur_term k (n +ℤ pos 1)) (sym (commit_step-fit cur_term n node fit))

commit_rounds-unfit :
    (cur_term k : ℕ) (n : ℤ) (node : RaftNode)
    → may_commit cur_term node n ≡ false
    → commit_rounds cur_term k (n +ℤ pos 1) node ≡ commit_rounds cur_term (suc k) n node
unfolding commit_rounds
commit_rounds-unfit cur_term k n node unfit =
    ap (commit_rounds cur_term k (n +ℤ pos 1)) (sym (commit_step-unfit cur_term n node unfit))

commit_rounds-mono :
    (cur_term k : ℕ) (n : ℤ) (node : RaftNode)
    → node.commit_index <ℤ n
    → node.commit_index ≤ℤ (commit_rounds cur_term k n node).commit_index
unfolding commit_rounds
commit_rounds-mono cur_term zero n node h = omega arith
commit_rounds-mono cur_term (suc k) n node h = elim (Bool-cases (may_commit cur_term node n)) [
  | inl fit ↦
      let rest =
        commit_rounds-mono cur_term k (n +ℤ pos 1) (record node { commit_index = n })
          (ground arith) in
      subst (λ (m : RaftNode). node.commit_index ≤ℤ m.commit_index)
        (commit_rounds-fit cur_term k n node fit) (omega arith)
  | inr unfit ↦
      subst (λ (m : RaftNode). node.commit_index ≤ℤ m.commit_index)
        (commit_rounds-unfit cur_term k n node unfit)
        (commit_rounds-mono cur_term k (n +ℤ pos 1) node (ground arith))
]

-- The commit index is that of `a` still, or it is one of the `k` entries from `n` on that may be
-- committed.
abbrev pub Settles : ℕ → ℕ → ℤ → RaftNode → RaftNode → Type 0
Settles cur_term k n a b =
    (b.commit_index ≡ a.commit_index)
    ⊎ ((i : ℕ) × (i < k)
        × (b.commit_index ≡ n +ℤ pos i)
        × (may_commit cur_term a (n +ℤ pos i) ≡ true))

first : (n : ℤ) → n ≡ n +ℤ pos 0
first n = ground arith

next : (n : ℤ) (i : ℕ) → n +ℤ pos 1 +ℤ pos i ≡ n +ℤ pos (suc i)
next n i = ground arith

Settles-fit :
    (cur_term k : ℕ) (n : ℤ) (a b : RaftNode)
    → may_commit cur_term a n ≡ true
    → Settles cur_term k (n +ℤ pos 1) (record a { commit_index = n }) b
    → Settles cur_term (suc k) n a b
Settles-fit cur_term k n a b fit (inl stays) =
    inr (0, omega arith, stays ∙ first n, ap (may_commit cur_term a) (sym (first n)) ∙ fit)
Settles-fit cur_term k n a b fit (inr (i, below, at, may)) =
    inr (suc i, omega arith, at ∙ next n i, ap (may_commit cur_term a) (sym (next n i)) ∙ may)

Settles-unfit :
    (cur_term k : ℕ) (n : ℤ) (a b : RaftNode)
    → Settles cur_term k (n +ℤ pos 1) a b
    → Settles cur_term (suc k) n a b
Settles-unfit cur_term k n a b (inl stays) = inl stays
Settles-unfit cur_term k n a b (inr (i, below, at, may)) =
    inr (suc i, omega arith, at ∙ next n i, ap (may_commit cur_term a) (sym (next n i)) ∙ may)

pub commit_rounds-Settles :
    (cur_term k : ℕ) (n : ℤ) (node : RaftNode)
    → Settles cur_term k n node (commit_rounds cur_term k n node)
unfolding commit_rounds
commit_rounds-Settles cur_term zero n node = inl refl
commit_rounds-Settles cur_term (suc k) n node = elim (Bool-cases (may_commit cur_term node n)) [
  | inl fit ↦
      let lowered = record node { commit_index = n } in
      subst (Settles cur_term (suc k) n node) (commit_rounds-fit cur_term k n node fit) (
        Settles-fit cur_term k n node (commit_rounds cur_term k (n +ℤ pos 1) lowered) fit
          (commit_rounds-Settles cur_term k (n +ℤ pos 1) lowered))
  | inr unfit ↦
      subst (Settles cur_term (suc k) n node) (commit_rounds-unfit cur_term k n node unfit) (
        Settles-unfit cur_term k n node (commit_rounds cur_term k (n +ℤ pos 1) node)
          (commit_rounds-Settles cur_term k (n +ℤ pos 1) node))
]

-- No entry behind the commit index may be committed.
pub commit_rounds-last :
    (cur_term k : ℕ) (n : ℤ) (node : RaftNode) (j : ℕ)
    → node.commit_index <ℤ n
    → j < k
    → may_commit cur_term node (n +ℤ pos j) ≡ true
    → n +ℤ pos j ≤ℤ (commit_rounds cur_term k n node).commit_index
unfolding commit_rounds
commit_rounds-last cur_term zero n node j h below may = omega arith
commit_rounds-last cur_term (suc k) n node zero h below may =
    subst (λ (m : RaftNode). n +ℤ pos 0 ≤ℤ m.commit_index)
      (commit_rounds-fit cur_term k n node (ap (may_commit cur_term node) (first n) ∙ may))
      (subst
        (λ (i : ℤ).
          i
          ≤ℤ (commit_rounds cur_term k (n +ℤ pos 1)
              (record node { commit_index = n })).commit_index)
        (first n)
        (commit_rounds-mono cur_term k (n +ℤ pos 1) (record node { commit_index = n })
          (ground arith)))
commit_rounds-last cur_term (suc k) n node (suc j) h below may =
    elim (Bool-cases (may_commit cur_term node n)) [
      | inl fit ↦
          subst (λ (m : RaftNode). n +ℤ pos (suc j) ≤ℤ m.commit_index)
            (commit_rounds-fit cur_term k n node fit)
            (later (record node { commit_index = n })
              (commit_rounds-last cur_term k (n +ℤ pos 1) (record node { commit_index = n }) j
                (ground arith) (omega arith) (ap (may_commit cur_term node) (next n j) ∙ may)))
      | inr unfit ↦
          subst (λ (m : RaftNode). n +ℤ pos (suc j) ≤ℤ m.commit_index)
            (commit_rounds-unfit cur_term k n node unfit)
            (later node (
              commit_rounds-last cur_term k (n +ℤ pos 1) node j (ground arith) (omega arith)
                (ap (may_commit cur_term node) (next n j) ∙ may)))
    ]
  where
    later :
        (m : RaftNode)
        → n +ℤ pos 1 +ℤ pos j ≤ℤ (commit_rounds cur_term k (n +ℤ pos 1) m).commit_index
        → n +ℤ pos (suc j) ≤ℤ (commit_rounds cur_term k (n +ℤ pos 1) m).commit_index
    later m le =
        subst (λ (i : ℤ). i ≤ℤ (commit_rounds cur_term k (n +ℤ pos 1) m).commit_index) (next n j) le
