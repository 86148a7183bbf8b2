-- ===== src/Raft/Append/Merge.antt =====
-- src/raft.c, the loop of `handle_append_entries_request`: the Raft paper's rule for its log.
use raft_research.Prelude.{
  ℕ, zero, suc, ◌+◌, ◌≤◌, ◌<◌, ◌≡◌, refl, ap, sym, ◌∙◌, List, [], ◌∷◌, ◌++◌, Option, none, some,
  true, arith, length, take, get_elem?, ◌==◌, if◌then◌else◌, length-take, get_elem?-take,
  get_elem?-some_lt, length-take, get_elem?-append_left, get_elem?-append_right, Bool-cases,
  Option-cases, inl, inr,
}
use native.Mathlib.Nat.{add-zero}
use raft_research.LogEntry.{LogEntry}
use raft_research.Store.{Log}

-- The rule of the Raft paper: entries that are there stay; from the first one whose term differs
-- from the leader's, or from the end of the log, the leader's entries take over.
abbrev pub merge_at : Option LogEntry → Log → Log → LogEntry → List LogEntry → Log
merge_at none kept rest e es = kept ++ e ∷ es
merge_at (some x) kept rest e es = if x.term == e.term then rest else kept ++ e ∷ es

unfoldable pub merge : Log → ℕ → List LogEntry → Log
merge log i [] = log
merge log i (e ∷ es) = merge_at (get_elem? log i) (take i log) (merge log (suc i) es) e es

-- The entries below the first new one stay.
pub merge-keeps :
    (es : List LogEntry) (log : Log) (i j : ℕ)
    → j < i
    → i ≤ length log
    → get_elem? (merge log i es) j ≡ get_elem? log j
unfolding merge
merge-keeps [] log i j h hi = refl
merge-keeps (e ∷ es) log i j h hi = elim (Option-cases (get_elem? log i)) [
  | inl end ↦ rw end (kept (e ∷ es))
  | inr (x, found) ↦ elim (Bool-cases (x.term == e.term)) [
    | inl same ↦
        rw (found, same)
          (merge-keeps es log (suc i) j (omega arith) (get_elem?-some_lt log i found))
    | inr other ↦ rw (found, other) (kept (e ∷ es))
  ]
]
  where
    kept : (new : List LogEntry) → get_elem? (take i log ++ new) j ≡ get_elem? log j
    kept new =
        get_elem?-append_left (take i log) new j (omega (arith, length-take i log))
        ∙ get_elem?-take i log j h

new_terms :
    (log new : List LogEntry) (i k : ℕ) (e : LogEntry)
    → i ≤ length log
    → get_elem? new k ≡ some e
    → (x : LogEntry) × (get_elem? (take i log ++ new) (i + k) ≡ some x) × (x.term ≡ e.term)
new_terms log new i k e hi q =
    let cut : i + k ≡ length (take i log) + k = omega (arith, length-take i log) in
    (e, rw cut (get_elem?-append_right (take i log) new k ∙ q), refl)

-- Where the leader's entries go, the log has entries of their terms.
pub merge-terms :
    (es : List LogEntry) (log : Log) (i k : ℕ) (e : LogEntry)
    → i ≤ length log
    → get_elem? es k ≡ some e
    → (x : LogEntry) × (get_elem? (merge log i es) (i + k) ≡ some x) × (x.term ≡ e.term)
unfolding merge
merge-terms [] log i k e hi q = cc
merge-terms (d ∷ es) log i zero e hi q = elim (Option-cases (get_elem? log i)) [
  | inl end ↦ rw end (new_terms log (d ∷ es) i 0 e hi q)
  | inr (x, found) ↦ elim (Bool-cases (x.term == d.term)) [
    | inl same ↦
        let below = get_elem?-some_lt log i found in
        rw (found, same, add-zero)
          (x, merge-keeps es log (suc i) i (omega arith) below ∙ found, ground arith)
    | inr other ↦ rw (found, other) (new_terms log (d ∷ es) i 0 e hi q)
  ]
]
merge-terms (d ∷ es) log i (suc k) e hi q = elim (Option-cases (get_elem? log i)) [
  | inl end ↦ rw end (new_terms log (d ∷ es) i (suc k) e hi q)
  | inr (x, found) ↦ elim (Bool-cases (x.term == d.term)) [
    | inl same ↦
        let next : i + suc k ≡ suc i + k = omega arith in
        rw (found, same, next) (merge-terms es log (suc i) k e (get_elem?-some_lt log i found) q)
    | inr other ↦ rw (found, other) (new_terms log (d ∷ es) i (suc k) e hi q)
  ]
]

-- The log has the terms of `es` from `i` on.
abbrev pub HasTerms : Log → ℕ → List LogEntry → Type 0
HasTerms log i es =
    (k : ℕ) (e : LogEntry)
    → get_elem? es k ≡ some e
    → (x : LogEntry) × (get_elem? log (i + k) ≡ some x) × (x.term ≡ e.term)

-- A request whose entries are all there changes nothing, so that a late or repeated one does not cut
-- off what was added since.
pub merge-eq_self :
    (es : List LogEntry) (log : Log) (i : ℕ) → HasTerms log i es → merge log i es ≡ log
unfolding merge
merge-eq_self [] log i h = refl
merge-eq_self (e ∷ es) log i h =
    let (x, found, same) = h 0 e refl in
    let found' : get_elem? log i ≡ some x = ap (get_elem? log) (sym (add-zero i)) ∙ found in
    let test : (x.term == e.term) ≡ true = ground arith in
    rw (found', test)
      (merge-eq_self es log (suc i) (λ k d q.
        let (y, there, eq) = h (suc k) d q in
        let shift : suc i + k ≡ i + suc k = omega arith in
        (y, ap (get_elem? log) shift ∙ there, eq)))
