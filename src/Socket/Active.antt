-- ===== src/Socket/Active.antt =====
-- src/transport-socket/transport-socket.c: what `remove_active_fd` does to the array as a multiset,
-- and the set of open descriptors.
use raft_research.Prelude.{
  ℕ, zero, suc, ◌+◌, ◌-◌, ◌<◌, ◌≡◌, refl, ap, ◌∙◌, List, [], ◌∷◌, ◌++◌, none, some, false, arith,
  subst, ◌≤◌, inl, inr, ◌==◌, if◌then◌else◌, length, get_or, set, take, length-set, length-take,
  Option-cases,
}
use raft_research.Socket.{index_of, remove_at, remove_fd, is_open, without}

abbrev pub count : ℕ → List ℕ → ℕ
count y [] = 0
count y (x ∷ xs) = let rest = count y xs in if x == y then suc rest else rest

pub count-append : (y : ℕ) (xs ys : List ℕ) → count y (xs ++ ys) ≡ count y xs + count y ys
count-append y [] ys = omega arith
count-append y (x ∷ xs) ys = ground (arith, count-append y xs ys)

-- One element replaced.
count-set :
    (y : ℕ) (xs : List ℕ) (i v : ℕ)
    → i < length xs
    → count y (set xs i v) + (if get_or xs i 0 == y then 1 else 0)
      ≡ count y xs + (if v == y then 1 else 0)
count-set y [] i v h = absurd (omega arith)
count-set y (x ∷ xs) zero v h = ground arith
count-set y (x ∷ xs) (suc i) v h = ground (arith, count-set y xs i v (omega arith))

-- The last element dropped.
count-take :
    (y : ℕ) (xs : List ℕ) (n : ℕ)
    → length xs ≡ suc n
    → count y (take n xs) + (if get_or xs n 0 == y then 1 else 0) ≡ count y xs
count-take y [] n h = absurd (omega arith)
count-take y (x ∷ []) zero h = ground arith
count-take y (x ∷ z ∷ xs) zero h = absurd (omega arith)
count-take y (x ∷ xs) (suc n) h = ground (arith, count-take y xs n (omega arith))

index_of-some :
    (y : ℕ) (xs : List ℕ) (i : ℕ) → index_of y xs ≡ some i → (i < length xs) × (get_or xs i 0 ≡ y)
index_of-some y [] i e = absurd cc
index_of-some y (x ∷ xs) zero e = ground arith
index_of-some y (x ∷ xs) (suc i) e = ground (arith, index_of-some y xs i)

index_of-none : (y : ℕ) (xs : List ℕ) → index_of y xs ≡ none → count y xs ≡ 0
index_of-none y [] e = refl
index_of-none y (x ∷ xs) e = ground (arith, index_of-none y xs)

last-set :
    (xs : List ℕ) (i n v : ℕ) → length xs ≡ suc n → get_or xs n 0 ≡ v → get_or (set xs i v) n 0 ≡ v
last-set [] i n v h e = absurd (omega arith)
last-set (x ∷ xs) zero zero v h e = refl
last-set (x ∷ xs) zero (suc n) v h e = e
last-set (x ∷ xs) (suc i) zero v h e = e
last-set (x ∷ xs) (suc i) (suc n) v h e = last-set xs i n v (omega arith) e

swap_out :
    (y fd i n : ℕ) (fds : List ℕ)
    → length fds ≡ suc n
    → i < length fds
    → get_or fds i 0 ≡ fd
    → count y (take n (set fds i (get_or fds n 0))) + (if fd == y then 1 else 0) ≡ count y fds
swap_out y fd i n fds h lt e =
    let v = get_or fds n 0 in
    let size : length (set fds i v) ≡ suc n = length-set fds i v ∙ h in
    let last : get_or (set fds i v) n 0 ≡ v = last-set fds i n v h refl in
    let cut : count y (take n (set fds i v)) + (if v == y then 1 else 0) ≡ count y (set fds i v) =
      subst
        (λ w. count y (take n (set fds i v)) + (if w == y then 1 else 0) ≡ count y (set fds i v))
        last (count-take y (set fds i v) n size) in
    let put : count y (set fds i v) + (if fd == y then 1 else 0)
        ≡ count y fds + (if v == y then 1 else 0) =
      subst
        (λ w.
          count y (set fds i v) + (if w == y then 1 else 0)
          ≡ count y fds + (if v == y then 1 else 0))
        e (count-set y fds i v lt) in
    omega (arith, cut, put)

-- Removing a descriptor takes one occurrence of it out of the array and leaves every other
-- descriptor in it as often as before, although the last element moves to the place that is free.
pub remove_active_fd-count :
    (fds : List ℕ) (fd y : ℕ)
    → count y (remove_fd fd fds) ≡ (if fd == y then count y fds - 1 else count y fds)
unfolding remove_fd
remove_active_fd-count fds fd y = elim (Option-cases (index_of fd fds)) [
  | inl absent ↦
      let same : remove_fd fd fds ≡ fds = ap (remove_at fds) absent in
      ground (arith, same, index_of-none fd fds absent)
  | inr (i, found) ↦
      let (lt, at) = index_of-some fd fds i found in
      let size : length fds ≡ suc (length fds - 1) = omega (arith, lt) in
      let swapped = ap (λ o. count y (remove_at fds o)) found in
      ground (arith, swapped, swap_out y fd i (length fds - 1) fds size lt at)
]

pub length-remove_fd : (fds : List ℕ) (fd : ℕ) → length (remove_fd fd fds) ≤ length fds
unfolding remove_fd
length-remove_fd fds fd = elim (Option-cases (index_of fd fds)) [
  | inl absent ↦ omega (arith, ap (λ o. length (remove_at fds o)) absent)
  | inr (i, found) ↦
      let v = get_or fds (length fds - 1) 0 in
      let same = ap (λ o. length (remove_at fds o)) found in
      omega (arith, same, length-take (length fds - 1) (set fds i v), length-set fds i v)
]

pub is_open-without :
    (fds : List ℕ) (fd y : ℕ)
    → is_open y (without fd fds) ≡ (if fd == y then false else is_open y fds)
is_open-without [] fd y = ground arith
is_open-without (x ∷ xs) fd y = ground (arith, is_open-without xs fd y)
