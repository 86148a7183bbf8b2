-- ===== src/Accrual/Window.antt =====
-- src/accrual.c: the circular buffer of intervals as a list.
use raft_research.Prelude.{
  ℕ, zero, suc, ◌+◌, ◌-◌, ◌%◌, ◌≤◌, ◌<◌, ◌≡◌, refl, ap, ap₂, ◌⊎◌, inl, inr, List, [], ◌∷◌, length,
  take, get_or, set, arith, min, ltb, length-set, length-replicate, get_or-set_self, get_or-set_ne,
  if◌then◌else◌, ◌==◌,
}
use native.Mathlib.Decide.{dec_lt}
use native.Mathlib.Numerals.{add-one}
use native.Mathlib.Nat.{zero-min, min-zero, suc-min-suc, min-le_left}
use raft_research.Prelude.Int.{sub64}
use raft_research.Accrual.{
  Telemetry, telemetry_init, telemetry_reset, store_interval, record_interval,
}

-- What the functions of accrual.c keep true of the buffer.
pub record IsValid (t : Telemetry) : Type 0 where
  pub sized : length t.intervals_usec ≡ t.window_size
  pub nonempty : 0 < t.window_size
  pub index_in : t.interval_index < t.window_size
  pub count_in : t.num_intervals ≤ t.window_size
  -- until the buffer is full it is filled from the start
  pub filling : (t.num_intervals ≡ t.window_size) ⊎ (t.interval_index ≡ t.num_intervals)

pub init-IsValid :
    (threshold window ramp : ℕ) → 0 < window → IsValid (telemetry_init threshold window ramp)
unfolding telemetry_init
init-IsValid threshold window ramp h = record {
  sized = length-replicate window 0;
  nonempty = h;
  index_in = h;
  count_in = omega arith;
  filling = inr refl;
}

pub reset-IsValid : (t : Telemetry) → IsValid t → IsValid (telemetry_reset t)
unfolding telemetry_reset
reset-IsValid t v = record {
  sized = length-replicate t.window_size 0;
  nonempty = v.nonempty;
  index_in = v.nonempty;
  count_in = omega arith;
  filling = inr refl;
}

next_index :
    (i w : ℕ) → i < w → (((i + 1) % w ≡ i + 1) × (i + 1 < w)) ⊎ (((i + 1) % w ≡ 0) × (i + 1 ≡ w))
next_index i w h = grind arith

pub store_interval-IsValid : (x : ℕ) (t : Telemetry) → IsValid t → IsValid (store_interval x t)
unfolding store_interval
store_interval-IsValid x t v = ground (
  arith,
  length-set t.intervals_usec t.interval_index x,
  next_index t.interval_index t.window_size v.index_in,
)

-- A heartbeat at any time keeps the buffer valid.
pub record_interval-IsValid :
    (now : ℕ) (t : Telemetry) → IsValid t → IsValid (record_interval now t)
unfolding record_interval
record_interval-IsValid now t v =
    let first = record t { last_heartbeat_usec = now } in
    ground (
      arith,
      store_interval-IsValid (sub64 now t.last_heartbeat_usec) first (record {
        sized = v.sized;
        nonempty = v.nonempty;
        index_in = v.index_in;
        count_in = v.count_in;
        filling = v.filling;
      }),
    )

-- The index before `i`, going round.
abbrev before : ℕ → ℕ → ℕ
before w zero = w - 1
before w (suc i) = i

module _ (xs : List ℕ) (w : ℕ) where
  -- The `n` elements before index `i`, going back.
  abbrev pub back : ℕ → ℕ → List ℕ
  back i zero = []
  back i (suc n) = get_or xs (before w i) 0 ∷ back (before w i) n

  take-back : (n m j : ℕ) → take n (back j m) ≡ back j (min n m)
  take-back zero m j = rw zero-min
  take-back (suc n) zero j = rw min-zero
  take-back (suc n) (suc m) j =
      rw suc-min-suc (ap (λ r. get_or xs (before w j) 0 ∷ r) (take-back n m (before w j)))

  pub length-back : (n j : ℕ) → length (back j n) ≡ n
  length-back zero j = refl
  length-back (suc n) j = ap suc (length-back n (before w j))

-- Reading back from `j` does not reach the element `i`.
back-set :
    (xs : List ℕ) (w i x n j : ℕ)
    → i < w
    → (i < j → n + i < j)
    → (j ≤ i → n + i < w + j)
    → back (set xs i x) w j n ≡ back xs w j n
back-set xs w i x zero j hi h1 h2 = refl
back-set xs w i x (suc n) zero hi h1 h2 =
    let room : suc n + i < w + 0 = h2 (omega arith) in
    ap₂ ◌∷◌ (get_or-set_ne xs i (w - 1) x 0 (omega arith))
      (back-set xs w i x n (w - 1) hi (λ _. omega arith) (λ _. omega arith))
back-set xs w i x (suc n) (suc j) hi h1 h2 = elim (dec_lt i (suc j)) [
  | yes lt ↦
      let room : suc n + i < suc j = h1 lt in
      ap₂ ◌∷◌ (get_or-set_ne xs i j x 0 (omega arith))
        (back-set xs w i x n j hi (λ _. omega arith) (λ le. absurd (omega arith)))
  | no ge ↦
      let room : suc n + i < w + suc j = h2 (omega arith) in
      ap₂ ◌∷◌ (get_or-set_ne xs i j x 0 (omega arith))
        (back-set xs w i x n j hi (λ lt. absurd (omega arith)) (λ _. omega arith))
]

before-next : (i w : ℕ) → i < w → before w ((i + 1) % w) ≡ i
before-next i w h = elim (next_index i w h) [
  | inl e ↦ rw (e.0, add-one)
  | inr e ↦ rw e.0 (omega arith)
]

-- The recorded intervals, newest first.
abbrev pub recent : Telemetry → List ℕ
recent t = back t.intervals_usec t.window_size t.interval_index t.num_intervals

store-back :
    (xs : List ℕ) (w i n x : ℕ)
    → length xs ≡ w
    → i < w
    → n ≤ w
    → back (set xs i x) w ((i + 1) % w) (if ltb n w then n + 1 else n) ≡ take w (x ∷ back xs w i n)
store-back xs zero i n x hl hi hn = absurd (omega arith)
store-back xs (suc w) i n x hl hi hn =
    rw (count, before-next i (suc w) hi, get_or-set_self xs i x 0 (omega arith), take-back)
      (ap (λ r. x ∷ r)
        (back-set xs (suc w) i x (min w n) i hi (λ lt. omega arith)
          (λ le. omega (arith, min-le_left w n))))
  where
    count : (if ltb n (suc w) then n + 1 else n) ≡ suc (min w n)
    count = ground arith

-- One more interval comes to the front, and at most `window_size` of them are kept.
pub recent-store_interval :
    (x : ℕ) (t : Telemetry)
    → IsValid t
    → recent (store_interval x t) ≡ take t.window_size (x ∷ recent t)
unfolding store_interval
recent-store_interval x t v =
    store-back t.intervals_usec t.window_size t.interval_index t.num_intervals x v.sized v.index_in
      v.count_in

-- On a valid buffer the first heartbeat records no interval; each later one records the time since
-- the heartbeat before it, as the newest of at most `window_size` intervals. The buffer stays valid.
pub recent-record_interval :
    (now : ℕ) (t : Telemetry)
    → IsValid t
    → (recent (record_interval now t) ≡ (
        if t.last_heartbeat_usec == 0
        then recent t
        else take t.window_size (sub64 now t.last_heartbeat_usec ∷ recent t)))
      × ((record_interval now t).last_heartbeat_usec ≡ now)
      × IsValid (record_interval now t)
unfolding record_interval store_interval
recent-record_interval now t v = ground (
  arith,
  recent-store_interval (sub64 now t.last_heartbeat_usec) t v,
  record_interval-IsValid now t v,
)
