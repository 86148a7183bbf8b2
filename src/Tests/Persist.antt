-- ===== src/Tests/Persist.antt =====
-- Examples for the files of a node.
use raft_research.Prelude.{ℕ, ◌≡◌, refl, [], ◌∷◌, false, true, arith}
use raft_research.Prelude.Int.{pos}
use raft_research.LogEntry.{IsWord}
use raft_research.Store.{log_write, log_remove_last_n}
use raft_research.Persist.Disk.{Disk, host_word}
use raft_research.Persist.Fields.{pf_get, pf_set, pf_current_term, pf_voted_for}
use raft_research.Persist.Fields.Refine.{Holds, fields_refine}
use raft_research.Persist.Log.{LogContext, f_log_write, f_log_remove_last_n, log_init}
use raft_research.Persist.Log.Refine.{Stores, IsSoundLog}
use raft_research.Persist.Log.Implements.{
  f_log_write-log_write, f_log_remove_last_n-log_remove_last_n,
}
use raft_research.Persist.Log.Restart.{AllOrNothing, log_init_recovers, append_crash}
use raft_research.Tests.Data.{entry}

-- A file of zeros, on which no call fails.
abbrev zeros : ℕ → Disk
zeros size = record { bytes = λ _. 0; size = size; offset = 0; calls = 0; fails = λ _. false }

zeros-Holds : Holds 0 0 (zeros 8)
unfolding host_word
zeros-Holds = record { sized = omega arith; term_word = refl; vote_word = refl }

fields_refine_example :
    (let (x, d') = pf_get pf_current_term (zeros 8) in (x ≡ pos 0) × Holds 0 0 d')
    × (let (x, d') = pf_get pf_voted_for (zeros 8) in (x ≡ pos 0) × Holds 0 0 d')
    × (let (rc, d') = pf_set pf_current_term 7 (zeros 8) in (rc ≡ pos 0) × Holds 7 0 d')
    × (let (rc, d') = pf_set pf_voted_for 7 (zeros 8) in (rc ≡ pos 0) × Holds 0 7 d')
fields_refine_example = fields_refine (zeros 8) (λ k. refl) zeros-Holds 7 (omega arith)

abbrev broken : Disk
broken = record (zeros 8) { fails = λ _. true }

-- An empty log.
abbrev empty : LogContext
empty = record { log_file = zeros 0; meta_file = zeros 4; length = 0 }

empty-IsSoundLog : IsSoundLog empty
empty-IsSoundLog = record { log_sound = λ k. refl; meta_sound = λ k. refl }

empty-Stores : Stores [] empty
unfolding host_word
empty-Stores = record {
  counted = refl;
  small = omega arith;
  sized = omega arith;
  at = λ i e q. ground arith;
  meta_sized = omega arith;
  meta_word = refl;
}

entry-IsWord : IsWord (entry 1 10)
entry-IsWord = record {
  term_fits = omega arith;
  client_fits = omega arith;
  seqno_fits = omega arith;
  cmd_fits = omega arith;
}

f_log_write-log_write_example :
    let (rc, c') = f_log_write (pos 0) (entry 1 10) empty in
    (rc ≡ pos 0) × Stores (entry 1 10 ∷ []) c'
unfolding log_write
f_log_write-log_write_example =
    f_log_write-log_write empty empty-IsSoundLog empty-Stores (pos 0) (entry 1 10) entry-IsWord
      (omega arith)

f_log_remove_last_n-log_remove_last_n_example :
    let (rc, c') = f_log_remove_last_n (pos 2) empty in (rc ≡ pos 0) × Stores [] c'
unfolding log_remove_last_n
f_log_remove_last_n-log_remove_last_n_example =
    f_log_remove_last_n-log_remove_last_n empty empty-IsSoundLog empty-Stores 2

log_init_recovers_example : Stores [] (log_init 99 (zeros 0) (zeros 4))
log_init_recovers_example = log_init_recovers 99 empty (λ k. refl) empty-Stores

-- The node crashes between the two writes.
abbrev crashing : LogContext
crashing = record empty { meta_file = record (zeros 4) { fails = λ _. true } }

crashing-Stores : Stores [] crashing
unfolding host_word
crashing-Stores = record {
  counted = refl;
  small = omega arith;
  sized = omega arith;
  at = λ i e q. ground arith;
  meta_sized = omega arith;
  meta_word = refl;
}

append_crash_example : AllOrNothing 99 [] (entry 1 10) (f_log_write (pos 0) (entry 1 10) crashing)
append_crash_example =
    append_crash 99 crashing (entry 1 10) crashing-Stores entry-IsWord (omega arith)
