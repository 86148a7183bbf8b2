-- ===== src/Accrual/Detect.antt =====
-- src/accrual.c: when the accrual test suspects the leader.
use raft_research.Prelude.{ℕ, ◌≤◌, ◌<◌, ◌^◌, ◌≡◌, true, false, arith, Bool-cases, inl, inr}
use raft_research.Prelude.Int.{sub64}
use raft_research.Float.{Double, IsMonotone}
use raft_research.Accrual.{Telemetry, suspects, compute_mean_interval, check_leader_failure}

module _ (fp : Double) (law : IsMonotone fp) where
  suspects_mono :
      (threshold mean a b : ℕ)
      → a ≤ b
      → b < 2 ^ 64
      → suspects fp threshold mean a ≡ true
      → suspects fp threshold mean b ≡ true
  unfolding suspects
  suspects_mono threshold mean a b h fits s = elim (Bool-cases (fp.le mean fp.zero)) [
    | inl low ↦ absurd (ground (arith, s, low))
    | inr high ↦
        let p = fp.mul (fp.div fp.one mean) (fp.of_uint a) in
        let q = fp.mul (fp.div fp.one mean) (fp.of_uint b) in
        let above : fp.lt threshold (fp.mul p fp.log10_e) ≡ true = ground (arith, s, high) in
        let ordered = law.lt_ordered threshold p above in
        let more = law.log10_e_mono p q (law.scale_mono mean a b h fits high ordered) in
        rw high (law.lt_le threshold (fp.mul p fp.log10_e) (fp.mul q fp.log10_e) above more)
  ]

  -- Once the leader is suspected it stays suspected for as long as no heartbeat comes. The clock does
  -- not go back and is below 2^64, and the arithmetic of doubles has the laws of IsMonotone.
  pub check_leader_failure_mono :
      (t : Telemetry) (now later : ℕ)
      → t.last_heartbeat_usec ≤ now
      → now ≤ later
      → later < 2 ^ 64
      → check_leader_failure fp now t ≡ true
      → check_leader_failure fp later t ≡ true
  unfolding check_leader_failure
  check_leader_failure_mono t now later h1 h2 h3 s =
      suspects_mono t.threshold (compute_mean_interval fp t) (sub64 now t.last_heartbeat_usec)
        (sub64 later t.last_heartbeat_usec) (omega arith) (omega arith) s

module _ (fp : Double) (zero_le : fp.le fp.zero fp.zero ≡ true) where
  -- With no interval recorded the leader is never suspected, however long it has been silent.
  pub check_leader_failure_empty :
      (t : Telemetry) (now : ℕ) → t.num_intervals ≡ 0 → check_leader_failure fp now t ≡ false
  unfolding check_leader_failure
  check_leader_failure_empty t now h = ground arith
