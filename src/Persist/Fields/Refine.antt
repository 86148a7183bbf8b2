-- ===== src/Persist/Fields/Refine.antt =====
-- src/persist-unix/persistent-fields.c against two fields in memory.
use raft_research.Prelude.{
  ℕ, ◌+◌, ◌^◌, ◌≤◌, ◌<◌, ◌≡◌, none, some, arith, inl, inr, true, min, ◌-◌, refl, ap, ◌∙◌, ◌⊎◌,
  Bool-cases,
}
use raft_research.Prelude.Int.{pos, negsuc, to_int}
use raft_research.Persist.Disk.{
  Disk, IsSound, lseek, read, write, host_bytes, host_word, host_word-write_self,
  host_word-write_ne,
}
use raft_research.Persist.Fields.{
  pf_get, pf_set, persistent_fields_init, pf_current_term, pf_voted_for, pf_no_vote_v,
  initial_fields,
}

-- The file holds both words, and `term` and `vote` are their values.
pub record Holds (term vote : ℕ) (d : Disk) : Type 0 where
  pub sized : 8 ≤ d.size
  pub term_word : host_word d.bytes 0 ≡ term
  pub vote_word : host_word d.bytes 4 ≡ vote

module _ {term vote : ℕ} (d : Disk) (sound : IsSound d) (h : Holds term vote d) where
  pf_get_term : let (v, d') = pf_get pf_current_term d in (v ≡ to_int term) × Holds term vote d'
  unfolding pf_get lseek read host_word
  pf_get_term =
      let full : min 4 (d.size - 0) ≡ 4 = omega arith in
      rw (sound d.calls, sound (d.calls + 1), full)
        (
          ap to_int h.term_word,
          record { sized = h.sized; term_word = h.term_word; vote_word = h.vote_word },
        )

  pf_get_vote : let (v, d') = pf_get pf_voted_for d in (v ≡ to_int vote) × Holds term vote d'
  unfolding pf_get lseek read host_word
  pf_get_vote =
      let full : min 4 (d.size - 4) ≡ 4 = omega arith in
      rw (sound d.calls, sound (d.calls + 1), full)
        (
          ap to_int h.vote_word,
          record { sized = h.sized; term_word = h.term_word; vote_word = h.vote_word },
        )

  pf_set_term :
      (v : ℕ)
      → v < 2 ^ 32
      → let (rc, d') = pf_set pf_current_term v d in (rc ≡ pos 0) × Holds v vote d'
  unfolding pf_set lseek write
  pf_set_term v hv =
      rw (sound d.calls, sound (d.calls + 1))
        (
          refl,
          record {
            sized = ground arith;
            term_word = host_word-write_self d.bytes d.size 0 v hv;
            vote_word =
                host_word-write_ne d.bytes d.size 0 (host_bytes v) 4 h.sized (inr (omega arith))
                ∙ h.vote_word;
          },
        )

  pf_set_vote :
      (v : ℕ)
      → v < 2 ^ 32
      → let (rc, d') = pf_set pf_voted_for v d in (rc ≡ pos 0) × Holds term v d'
  unfolding pf_set lseek write
  pf_set_vote v hv =
      rw (sound d.calls, sound (d.calls + 1))
        (
          refl,
          record {
            sized = ground arith;
            term_word =
                host_word-write_ne d.bytes d.size 4 (host_bytes v) 0 (omega arith)
                  (inl (omega arith))
                ∙ h.term_word;
            vote_word = host_word-write_self d.bytes d.size 4 v hv;
          },
        )

  -- On a file that holds a term and a vote, while no call fails: reading a field gives its value as
  -- an `int` and leaves the file as it is; writing a field returns 0, and the file then holds the
  -- new value of that field and the old value of the other.
  pub fields_refine :
      (v : ℕ)
      → v < 2 ^ 32
      → (let (x, d') = pf_get pf_current_term d in (x ≡ to_int term) × Holds term vote d')
        × (let (x, d') = pf_get pf_voted_for d in (x ≡ to_int vote) × Holds term vote d')
        × (let (rc, d') = pf_set pf_current_term v d in (rc ≡ pos 0) × Holds v vote d')
        × (let (rc, d') = pf_set pf_voted_for v d in (rc ≡ pos 0) × Holds term v d')
  fields_refine v hv = (pf_get_term, pf_get_vote, pf_set_term v hv, pf_set_vote v hv)

-- Opening keeps what a file holds.
pub init-Holds :
    {term vote : ℕ} (d : Disk) → Holds term vote d → persistent_fields_init true d ≡ some d
unfolding persistent_fields_init
init-Holds d h = ground arith

-- Opening a new file makes it hold term 0 and no vote, unless the write fails; then the node exits.
pub init-new :
    (d : Disk)
    → d.size ≡ 0
    → d.offset ≡ 0
    → (persistent_fields_init true d ≡ none)
      ⊎ ((d' : Disk) × (persistent_fields_init true d ≡ some d') × Holds 0 pf_no_vote_v d')
unfolding persistent_fields_init write host_word host_bytes
init-new d e0 e1 = elim (Bool-cases (d.fails d.calls)) [
  | inl bad ↦ inl (rw (bad, e0))
  | inr good ↦ inr (
    (write initial_fields 8 d).1,
    rw (good, e0),
    rw (good, e0, e1) (record { sized = omega arith; term_word = refl; vote_word = refl }),
  )
]

-- Where a call fails, reading a field gives -1, whatever the file holds.
pub pf_get_fails :
    (f : ℕ) (d : Disk)
    → (d.fails d.calls ≡ true) ⊎ (d.fails (d.calls + 1) ≡ true)
    → (pf_get f d).0 ≡ negsuc 0
unfolding pf_get lseek read
pf_get_fails f d (inl bad) = rw bad
pf_get_fails f d (inr bad) = elim (Bool-cases (d.fails d.calls)) [
  | inl first ↦ rw first
  | inr ok ↦ rw (ok, bad)
]
