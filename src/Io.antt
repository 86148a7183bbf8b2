-- ===== src/Io.antt =====
-- What a node reads from its surroundings and what it leaves there: src/util.h and
-- src/util-unix/util.c (clock and random numbers), the packets handed to the transport, and the
-- rows of the telemetry file. Output to the terminal is left out.
use raft_research.Prelude.{
  ℕ, ◌+◌, ◌*◌, ◌/◌, ◌%◌, ◌^◌, ◌≤◌, ◌<◌, List, Option, arith, leb, if◌then◌else◌,
}
use Prim.Native.Nat.{max}
use raft_research.Prelude.Int.{ℤ, add32, sub32}
use raft_research.Transport.{Pkt}

-- The events that raft.c passes to `telemetry_log`.
pub data EventName : Type 0 where
  heartbeat became_follower became_candidate became_leader timeout intentional_crash : EventName

-- A row of the telemetry file.
pub record Event : Type 0 where
  pub timestamp_usec : ℕ
  pub event : EventName
  pub term : ℕ
  pub leader_id : ℤ
  pub value : ℕ

-- `clock` and `rand` give the successive results of clock_gettime (seconds and nanoseconds) and of
-- rand(); `ticks` and `draws` count the calls made so far. `exit_status` is set by exit().
pub record Io : Type 0 where
  pub clock : ℕ → ℕ × ℕ
  pub ticks : ℕ
  pub rand : ℕ → ℕ
  pub draws : ℕ
  pub sent : List Pkt
  pub trace : List Event
  pub exit_status : Option ℕ

-- (uint64_t)ts.tv_sec * 1000*1000 + ts.tv_nsec / 1000
abbrev pub usec_of : ℕ × ℕ → ℕ
usec_of (sec, nsec) = (sec * 1000 * 1000 + nsec / 1000) % 2 ^ 64

abbrev pub get_usec : Io → ℕ × Io
get_usec io = (usec_of (io.clock io.ticks), record io { ticks = io.ticks + 1 })

-- The value that `random_timeout_usec` returns for the next result `r` of rand().
unfoldable pub timeout_in : ℕ → ℕ → ℕ → ℕ
timeout_in lo hi r = if leb hi lo then lo else add32 lo (r % sub32 hi lo)

-- `random_timeout_usec(min, max)`; rand() is not called for an empty range.
abbrev pub random_timeout_usec : ℕ → ℕ → Io → ℕ × Io
random_timeout_usec lo hi io = (
  timeout_in lo hi (io.rand io.draws),
  record io { draws = if leb hi lo then io.draws else io.draws + 1 },
)

-- A random timeout is at least the lower bound, and below the upper bound where the range is not
-- empty; an empty range gives the lower bound. The bounds are of type uint32_t.
pub timeout_in_bounds :
    (lo hi r : ℕ)
    → lo < 2 ^ 32
    → hi < 2 ^ 32
    → (lo ≤ timeout_in lo hi r) × (timeout_in lo hi r < max hi (lo + 1))
unfolding timeout_in
timeout_in_bounds lo hi r hlo hhi = ground arith
