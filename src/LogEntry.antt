-- ===== src/LogEntry.antt =====
-- src/log-entry.h, src/log-entry.c: a log entry and its 16 bytes.
use raft_research.Prelude.{
  refl, ap, List, [], ◌∷◌, Option, none, some, if◌then◌else◌, ℕ, ◌+◌, ◌<◌, ◌≤◌, ◌^◌, ◌≡◌, ◌⊎◌,
  arith,
}
use mathlib.Core.List.{map}
use raft_research.Prelude.Int.{ℤ, pos, negsuc, is_zero}
use raft_research.Memory.{
  Bytes, write_u32_be, read_u32_be, write_u32-out, read-write_u32_self, read-write_u32_ne,
  read_u32_cong,
}
use native.Mathlib.Nat.{add_assoc}

-- `log_entry_t`
pub record LogEntry : Type 0 where
  pub term : ℕ
  pub client_id : ℕ
  pub cmd_seqno : ℕ
  pub cmd : ℕ

-- Each field is a `uint32_t`.
pub record IsWord (e : LogEntry) : Type 0 where
  pub term_fits : e.term < 2 ^ 32
  pub client_fits : e.client_id < 2 ^ 32
  pub seqno_fits : e.cmd_seqno < 2 ^ 32
  pub cmd_fits : e.cmd < 2 ^ 32

-- The buffer after the call; the pointer that the code returns is `p + packed_size`.
unfoldable pub log_entry_pack : Bytes → ℕ → LogEntry → Bytes
log_entry_pack buf p entry =
    write_u32_be
      (write_u32_be (write_u32_be (write_u32_be buf p entry.term) (p + 4) entry.client_id) (p + 8)
        entry.cmd_seqno)
      (p + 12) entry.cmd

unfoldable pub log_entry_unpack : Bytes → ℕ → LogEntry
log_entry_unpack buf p = record {
  term = read_u32_be buf p;
  client_id = read_u32_be buf (p + 4);
  cmd_seqno = read_u32_be buf (p + 8);
  cmd = read_u32_be buf (p + 12);
}

abbrev pub packed_size : ℕ
packed_size = 16

-- The result, and the line that is printed: the node, -1 without a context, and the command.
abbrev apply_log_entry_to_sm : LogEntry → Option ℤ → ℤ × (ℤ × ℕ)
apply_log_entry_to_sm entry ctx =
    (pos 0, elim ctx [ none ↦ (negsuc 0, entry.cmd) | some node_id ↦ (node_id, entry.cmd) ])

-- The first `n` entries, one after the other, until one fails.
unfoldable apply_log_entries_to_sm : List LogEntry → Option ℤ → ℤ × List (ℤ × ℕ)
apply_log_entries_to_sm [] ctx = (pos 0, [])
apply_log_entries_to_sm (entry ∷ entries) ctx =
    let (rc, line) = apply_log_entry_to_sm entry ctx in
    let rest = apply_log_entries_to_sm entries ctx in
    if is_zero rc then (rest.0, line ∷ rest.1) else (negsuc 0, line ∷ [])

-- Every entry is applied, in order, and the result is 0.
apply_log_entries_to_sm-all :
    (entries : List LogEntry) (node_id : ℤ)
    → apply_log_entries_to_sm entries (some node_id) ≡ (pos 0, map (λ e. (node_id, e.cmd)) entries)
unfolding apply_log_entries_to_sm
apply_log_entries_to_sm-all [] node_id = refl
apply_log_entries_to_sm-all (entry ∷ entries) node_id =
    ap (λ r. (r.0, (node_id, entry.cmd) ∷ r.1)) (apply_log_entries_to_sm-all entries node_id)

-- A byte outside the 16 that are written.
pub pack-out :
    (m : Bytes) (p : ℕ) (e : LogEntry) (q : ℕ)
    → (q < p) ⊎ (p + 16 ≤ q)
    → log_entry_pack m p e q ≡ m q
unfolding log_entry_pack
pack-out m p e q h = grind (arith, write_u32-out)

pub read-pack_ne :
    (m : Bytes) (p : ℕ) (e : LogEntry) (q : ℕ)
    → (q + 4 ≤ p) ⊎ (p + 16 ≤ q)
    → read_u32_be (log_entry_pack m p e) q ≡ read_u32_be m q
unfolding log_entry_pack
read-pack_ne m p e q h = grind (arith, read-write_u32_ne)

-- Unpacking what was packed gives back the entry, wherever in the buffer it stands.
pub unpack-pack :
    (m : Bytes) (p : ℕ) (e : LogEntry) → IsWord e → log_entry_unpack (log_entry_pack m p e) p ≡ e
unfolding log_entry_pack log_entry_unpack
unpack-pack m p e w = grind (arith, read-write_u32_self, read-write_u32_ne)

-- An entry depends on its 16 bytes alone.
pub unpack_cong :
    (m m' : Bytes) (p q : ℕ)
    → ((k : ℕ) → k < 16 → m (p + k) ≡ m' (q + k))
    → log_entry_unpack m p ≡ log_entry_unpack m' q
unfolding log_entry_unpack
unpack_cong m m' p q h = ground (
  arith,
  read_u32_cong m m' p q (λ k b. h k (omega arith)),
  word 4 (omega arith),
  word 8 (omega arith),
  word 12 (omega arith),
)
  where
    word : (o : ℕ) → o ≤ 12 → read_u32_be m (p + o) ≡ read_u32_be m' (q + o)
    word o le =
        read_u32_cong m m' (p + o) (q + o)
          (λ k b. rw (add_assoc p o k, add_assoc q o k) (h (o + k) (omega arith)))
