-- ===== src/Accrual.antt =====
-- src/accrual.h, src/accrual.c: the record of heartbeat intervals of a follower, and the phi accrual
-- test on it. Freeing the buffer has no counterpart here.
pub mod Window
pub mod Mean
pub mod Detect
use raft_research.Prelude.{
  ℕ, zero, suc, ◌+◌, ◌%◌, ◌^◌, List, [], ◌∷◌, Bool, false, true, length, take, set, replicate, ltb,
  ◌==◌, if◌then◌else◌,
}
use raft_research.Prelude.Int.{sub64}
use raft_research.Float.{Double}

abbrev pub ts_timeout : ℕ
ts_timeout = 50

abbrev pub ts_accrual : ℕ
ts_accrual = 51

abbrev pub accrual_interval_ms : ℕ
accrual_interval_ms = 100

-- `heartbeat_telemetry_t`; `threshold` is the bit pattern of a double.
pub record Telemetry : Type 0 where
  pub intervals_usec : List ℕ
  pub window_size : ℕ
  pub ramp_size : ℕ
  pub threshold : ℕ
  pub interval_index : ℕ
  pub num_intervals : ℕ
  pub last_heartbeat_usec : ℕ

unfoldable pub telemetry_init : ℕ → ℕ → ℕ → Telemetry
telemetry_init threshold window_size ramp_size = record {
  intervals_usec = replicate window_size 0;
  window_size = window_size;
  ramp_size = ramp_size;
  threshold = threshold;
  interval_index = 0;
  num_intervals = 0;
  last_heartbeat_usec = 0;
}

-- The loop writes 0 to each of the `window_size` elements.
unfoldable pub telemetry_reset : Telemetry → Telemetry
telemetry_reset t = record t {
  intervals_usec = replicate t.window_size 0;
  interval_index = 0;
  num_intervals = 0;
  last_heartbeat_usec = 0;
}

-- The part of `record_interval` after the first heartbeat.
unfoldable pub store_interval : ℕ → Telemetry → Telemetry
store_interval interval t = record t {
  intervals_usec = set t.intervals_usec t.interval_index interval;
  interval_index = (t.interval_index + 1) % t.window_size;
  num_intervals =
      if ltb t.num_intervals t.window_size then t.num_intervals + 1 else t.num_intervals;
}

-- 0 stands for "no heartbeat yet".
unfoldable pub record_interval : ℕ → Telemetry → Telemetry
record_interval now t =
    let first = record t { last_heartbeat_usec = now } in
    if t.last_heartbeat_usec == 0
    then first
    else store_interval (sub64 now t.last_heartbeat_usec) first

-- `sum += intervals_usec[i]` in a uint64_t.
unfoldable pub sum_loop : ℕ → List ℕ → ℕ
sum_loop sum [] = sum
sum_loop sum (x ∷ xs) = sum_loop ((sum + x) % 2 ^ 64) xs

module _ (fp : Double) where
  open fp use {of_uint, div, mul, lt, le, zero as d_zero, one, log10_e}

  unfoldable pub compute_mean_interval : Telemetry → ℕ
  compute_mean_interval t =
      if t.num_intervals == 0
      then d_zero
      else div (of_uint (sum_loop 0 (take t.num_intervals t.intervals_usec)))
          (of_uint t.num_intervals)

  -- The test on a mean and on the time since the last heartbeat.
  unfoldable pub suspects : ℕ → ℕ → ℕ → Bool
  suspects threshold mean elapsed =
      if le mean d_zero
      then false
      else lt threshold (mul (mul (div one mean) (of_uint elapsed)) log10_e)

  -- `now` is the reading of get_usec() that the function makes.
  unfoldable pub check_leader_failure : ℕ → Telemetry → Bool
  unfolding compute_mean_interval suspects
  check_leader_failure now t =
      suspects t.threshold (compute_mean_interval t) (sub64 now t.last_heartbeat_usec)
