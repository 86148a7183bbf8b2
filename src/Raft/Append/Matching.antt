-- ===== src/Raft/Append/Matching.antt =====
-- src/raft.c, from `broadcast_append_entries` of a leader to `handle_append_entries_request` of a
-- follower: the log matching property.
use raft_research.Prelude.{
  ℕ, zero, suc, ◌+◌, ◌≤◌, ◌≡◌, refl, sym, ap, ap₂, subst, ◌∙◌, inl, inr, [], ◌∷◌, ◌++◌, some, none,
  arith, length, take, drop, get_elem?, ◌==◌, Bool-cases, Option-cases, get_elem?-some_lt, take-all,
  length-take, length-append,
}
use native.Mathlib.Nat.{zero-add, add-zero, suc-add}
use raft_research.LogEntry.{LogEntry}
use raft_research.Store.{Log}
use raft_research.Raft.Append.Merge.{merge}

-- Two logs that have entries of the same term at an index are the same up to that index.
abbrev pub Matching : Log → Log → Type 0
Matching a b =
    (k : ℕ) (x y : LogEntry)
    → get_elem? a k ≡ some x
    → get_elem? b k ≡ some y
    → x.term ≡ y.term
    → take (suc k) a ≡ take (suc k) b

pub drop-some :
    (l : Log) (i : ℕ) (e : LogEntry) → get_elem? l i ≡ some e → drop i l ≡ e ∷ drop (suc i) l
drop-some [] i e q = cc
drop-some (x ∷ l) zero e q = ground (arith, q)
drop-some (x ∷ l) (suc i) e q = drop-some l i e q

drop-none : (l : Log) (i : ℕ) → get_elem? l i ≡ none → drop i l ≡ []
drop-none [] zero q = refl
drop-none [] (suc i) q = refl
drop-none (x ∷ l) zero q = cc
drop-none (x ∷ l) (suc i) q = drop-none l i q

take-add : (l : Log) (i m : ℕ) → take (i + m) l ≡ take i l ++ take m (drop i l)
take-add l zero m = rw zero-add refl
take-add [] (suc i) zero = rw suc-add refl
take-add [] (suc i) (suc m) = rw suc-add refl
take-add (x ∷ l) (suc i) m = rw suc-add (ap (λ (r : Log). x ∷ r) (take-add l i m))

take-length : (l : Log) (n : ℕ) → take (length (take n l)) l ≡ take n l
take-length l zero = refl
take-length [] (suc n) = refl
take-length (x ∷ l) (suc n) = ap (λ (r : Log). x ∷ r) (take-length l n)

-- Behind the first `i` entries, which are those of `l`, come the entries that `l` has there.
new_end :
    (l f es : Log) (i n : ℕ)
    → i ≤ length f
    → take i f ≡ take i l
    → es ≡ take n (drop i l)
    → take (i + length es) (take i f ++ es) ≡ take (i + length es) l
new_end l f es i n hi same from =
    let whole : length (take i f ++ es) ≤ i + length es =
      omega (arith, length-append (take i f) es, length-take i f) in
    take-all (i + length es) (take i f ++ es) whole
    ∙ ap₂ (λ (a b : Log). a ++ b) same from
    ∙ sym (
        take-add l i (length es)
        ∙ ap (λ (r : Log). take i l ++ r)
            (ap (λ (r : Log). take (length r) (drop i l)) from ∙ take-length (drop i l) n))

take-drop :
    (l : Log) (i n : ℕ) (e : LogEntry)
    → get_elem? l i ≡ some e
    → (e ∷ take n (drop (suc i) l)) ≡ take (suc n) (drop i l)
take-drop l i n e there = rw (drop-some l i e there) refl

-- Logs that match and are the same up to `i` are the same after the merge, up to the end of the new
-- entries.
pub merge-Matching :
    (n i : ℕ) (l f : Log)
    → Matching l f
    → take i f ≡ take i l
    → i ≤ length f
    → let es = take n (drop i l) in take (i + length es) (merge f i es) ≡ take (i + length es) l
unfolding merge
merge-Matching zero i l f match same hi = rw add-zero same
merge-Matching (suc n) i l f match same hi = elim (Option-cases (get_elem? l i)) [
  | inl end ↦ rw (drop-none l i end, add-zero) same
  | inr (e, there) ↦ elim (Option-cases (get_elem? f i)) [
    | inl f_end ↦
        rw (drop-some l i e there, f_end)
          (new_end l f (e ∷ take n (drop (suc i) l)) i (suc n) hi same (take-drop l i n e there))
    | inr (x, found) ↦ elim (Bool-cases (x.term == e.term)) [
      | inl eq ↦
          let next : i + suc (length (take n (drop (suc i) l)))
              ≡ suc i + length (take n (drop (suc i) l)) =
            omega arith in
          let here : x.term ≡ e.term = ground arith in
          rw (drop-some l i e there, found, eq, next)
            (merge-Matching n (suc i) l f match (sym (match i e x there found (sym here)))
              (get_elem?-some_lt f i found))
      | inr ne ↦
          rw (drop-some l i e there, found, ne)
            (new_end l f (e ∷ take n (drop (suc i) l)) i (suc n) hi same (take-drop l i n e there))
    ]
  ]
]

take-take_le : (l : Log) (k m : ℕ) → k ≤ m → take k (take m l) ≡ take k l
take-take_le l zero m h = refl
take-take_le l (suc k) zero h = absurd (omega arith)
take-take_le [] (suc k) (suc m) h = refl
take-take_le (x ∷ l) (suc k) (suc m) h = ap (λ (r : Log). x ∷ r) (take-take_le l k m (omega arith))

-- A log that is a beginning of `l` matches it.
Matching-prefix : (l f : Log) → take (length f) f ≡ take (length f) l → Matching l f
Matching-prefix l f same k x y there found eq =
    let below : suc k ≤ length f = get_elem?-some_lt f k found in
    sym (take-take_le l (suc k) (length f) below)
    ∙ ap (take (suc k)) (sym same)
    ∙ take-take_le f (suc k) (length f) below

Matching-new_end :
    (l f es : Log) (i n : ℕ)
    → i ≤ length f
    → take i f ≡ take i l
    → es ≡ take n (drop i l)
    → Matching l (take i f ++ es)
Matching-new_end l f es i n hi same from =
    let size : i + length es ≡ length (take i f ++ es) =
      omega (arith, length-append (take i f) es, length-take i f) in
    Matching-prefix l (take i f ++ es)
      (subst (λ (m : ℕ). take m (take i f ++ es) ≡ take m l) size (new_end l f es i n hi same from))

pub Matching-merge :
    (n i : ℕ) (l f : Log)
    → Matching l f
    → take i f ≡ take i l
    → i ≤ length f
    → Matching l (merge f i (take n (drop i l)))
unfolding merge
Matching-merge zero i l f match same hi = match
Matching-merge (suc n) i l f match same hi = elim (Option-cases (get_elem? l i)) [
  | inl end ↦ rw (drop-none l i end) match
  | inr (e, there) ↦ elim (Option-cases (get_elem? f i)) [
    | inl f_end ↦
        rw (drop-some l i e there, f_end)
          (Matching-new_end l f (e ∷ take n (drop (suc i) l)) i (suc n) hi same
            (take-drop l i n e there))
    | inr (x, found) ↦ elim (Bool-cases (x.term == e.term)) [
      | inl eq ↦
          let here : x.term ≡ e.term = ground arith in
          rw (drop-some l i e there, found, eq)
            (Matching-merge n (suc i) l f match (sym (match i e x there found (sym here)))
              (get_elem?-some_lt f i found))
      | inr ne ↦
          rw (drop-some l i e there, found, ne)
            (Matching-new_end l f (e ∷ take n (drop (suc i) l)) i (suc n) hi same
              (take-drop l i n e there))
    ]
  ]
]
