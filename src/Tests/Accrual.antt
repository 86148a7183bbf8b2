-- ===== src/Tests/Accrual.antt =====
-- Examples for the failure detector, the timer and the random timeouts.
use raft_research.Prelude.{◌*◌, ◌/◌, ◌≤◌, ◌≡◌, refl, [], ◌∷◌, true, inr, arith, ltb, leb}
use native.Mathlib.Nat.{mul-le-mul_left}
use raft_research.Float.{Double, IsMonotone}
use raft_research.Accrual.{
  record_interval, compute_mean_interval, check_leader_failure, suspects, sum_loop,
}
use raft_research.Accrual.Window.{IsValid, recent, recent-record_interval}
use raft_research.Accrual.Mean.{sum, compute_mean_interval_lem}
use raft_research.Accrual.Detect.{check_leader_failure_mono}
use raft_research.Timer.{RaftTimer}
use raft_research.Tests.Data.{telemetry, whole}

telemetry-IsValid : IsValid telemetry
telemetry-IsValid = record {
  sized = refl;
  nonempty = omega arith;
  index_in = omega arith;
  count_in = omega arith;
  filling = inr refl;
}

recent-record_interval_example :
    (recent (record_interval 109 telemetry) ≡ 9 ∷ 7 ∷ 5 ∷ [])
    × ((record_interval 109 telemetry).last_heartbeat_usec ≡ 109)
    × IsValid (record_interval 109 telemetry)
recent-record_interval_example = recent-record_interval 109 telemetry telemetry-IsValid

compute_mean_interval_lem_example : compute_mean_interval whole telemetry ≡ 12
unfolding sum
compute_mean_interval_lem_example = compute_mean_interval_lem whole telemetry telemetry-IsValid

-- Numbers in thousandths, rounded down after each operation.
abbrev fixed : Double
fixed = record {
  of_uint = λ n. n * 1000;
  div = λ a b. a * 1000 / b;
  mul = λ a b. a * b / 1000;
  lt = ltb;
  le = leb;
  zero = 0;
  one = 1000;
  log10_e = 434;
}

fixed-IsMonotone : IsMonotone fixed
fixed-IsMonotone = record {
  scale_mono = λ mean a b h fits above ordered.
      let scaled : 1000 * 1000 / mean * (a * 1000) ≤ 1000 * 1000 / mean * (b * 1000) =
        mul-le-mul_left (1000 * 1000 / mean) (omega arith) in
      ground (arith, scaled);
  log10_e_mono = λ a b h. ground (arith, h);
  lt_le = λ a b c lt le. ground arith;
  lt_ordered = λ a b lt. ground arith;
}

-- The mean of the intervals is 6, and phi after 100 microseconds is 7.204.
check_leader_failure_mono_example :
    check_leader_failure fixed 300 (record telemetry { threshold = 7000 }) ≡ true
unfolding check_leader_failure suspects compute_mean_interval sum_loop
check_leader_failure_mono_example =
    check_leader_failure_mono fixed fixed-IsMonotone (record telemetry { threshold = 7000 }) 200 300
      (omega arith) (omega arith) (omega arith) refl

abbrev timer : RaftTimer
timer = record { start_usec = 100; duration_usec = 50 }
