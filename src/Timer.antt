-- ===== src/Timer.antt =====
-- src/raft-timer.h: one timer, against the clock of `Io`.
use raft_research.Prelude.{
  ℕ, ◌+◌, ◌-◌, ◌≤◌, ◌<◌, ◌^◌, ◌≡◌, ◌↔◌, Bool, true, arith, leb, if◌then◌else◌,
}
use raft_research.Prelude.Int.{sub64}

-- `raft_timer_t`
pub record RaftTimer : Type 0 where
  pub start_usec : ℕ
  pub duration_usec : ℕ

-- Each function takes the clock reading that its call of get_usec() returns.
abbrev pub timer_reset : ℕ → RaftTimer → RaftTimer
timer_reset now timer = record timer { start_usec = now }

unfoldable pub timer_expired : ℕ → RaftTimer → Bool
timer_expired now timer = leb timer.duration_usec (sub64 now timer.start_usec)

unfoldable pub time_remaining_usec : ℕ → RaftTimer → ℕ
time_remaining_usec now timer =
    let passed = sub64 now timer.start_usec in
    if leb timer.duration_usec passed then 0 else timer.duration_usec - passed

-- With a clock that has not run back since the timer was set, the time that has passed and the time
-- that remains add up to the duration until the timer expires, and then nothing remains; before it
-- some time does.
pub time_remaining_lem :
    (now : ℕ) (timer : RaftTimer)
    → timer.start_usec ≤ now
    → now < 2 ^ 64
    → let passed = now - timer.start_usec in
      let expired = timer_expired now timer in
      ((expired ≡ true) ↔ (time_remaining_usec now timer ≡ 0))
      × (passed + time_remaining_usec now timer ≡ (if expired then passed else timer.duration_usec))
unfolding timer_expired time_remaining_usec
time_remaining_lem now timer h f = ground arith
