-- ===== src/Rpc/AppendEntries.antt =====
-- src/rpc.c: the AppendEntries request, whose payload grows with the number of entries.
use raft_research.Prelude.{
  ℕ, suc, ◌+◌, ◌*◌, ◌≤◌, ◌≡◌, refl, inl, List, [], ◌∷◌, Option, none, some, length, take, arith,
  ltb, if◌then◌else◌,
}
use raft_research.Prelude.Int.{ℤ, pos, negsuc, to_int, to_u32, add32, mul32}
use raft_research.Memory.{Bytes, write_u32_be, read_u32_be}
use raft_research.LogEntry.{
  LogEntry, log_entry_pack, log_entry_unpack, packed_size, read-pack_ne, unpack-pack,
}
use raft_research.Transport.{Pkt, max_payload}
use raft_research.Rpc.Messages.{
  AppendEntriesReq, AllWords, max_append_entries_n, rpc_call_append_ent,
}

-- `for (i = 0; i < n; i++) p = log_entry_pack(p, &entries[i]);` over the entries that are left.
unfoldable pub pack_entries : Bytes → ℕ → List LogEntry → Bytes
pack_entries m p [] = m
pack_entries m p (e ∷ es) = pack_entries (log_entry_pack m p e) (p + packed_size) es

-- The same loop for `log_entry_unpack`, over the number of entries that are left.
unfoldable pub unpack_entries : Bytes → ℕ → ℕ → List LogEntry
unpack_entries m p ℕ.zero = []
unpack_entries m p (suc n) = log_entry_unpack m p ∷ unpack_entries m (p + packed_size) n

-- The six words before the entries.
unfoldable pub pack_fixed : Bytes → AppendEntriesReq → Bytes
pack_fixed m req =
    write_u32_be
      (write_u32_be
        (write_u32_be
          (write_u32_be (write_u32_be (write_u32_be m 0 req.term) 4 req.leader_id) 8
            req.prev_log_idx)
          12 req.prev_log_term)
        16 (to_u32 req.leader_commit))
      20 req.n_entries

-- With more than MAX_APPEND_ENTRIES_N entries the size is not set, and no entry is written.
unfoldable pub pack_append_entries_req : Pkt → ℕ → ℕ → AppendEntriesReq → ℤ × Pkt
pack_append_entries_req pkt dst src req =
    let fixed = pack_fixed pkt.payload req in
    let sent = take req.n_entries req.entries in
    let size = 24 + length sent * packed_size in
    if ltb max_append_entries_n req.n_entries
    then (
      negsuc 0,
      record {
        header = record pkt.header { dst = dst; src = src; code = rpc_call_append_ent };
        payload = fixed;
      },
    )
    else (
      if ltb max_payload size then negsuc 0 else pos 0,
      record {
        header = record { dst = dst; src = src; payload_n = size; code = rpc_call_append_ent };
        payload = pack_entries fixed 24 sent;
      },
    )

unfoldable pub unpack_append_entries_req : Pkt → Option AppendEntriesReq
unpack_append_entries_req pkt =
    let n = read_u32_be pkt.payload 20 in
    if ltb pkt.header.payload_n 24
    then none
    else if ltb max_append_entries_n n
    then none
    else if ltb pkt.header.payload_n (add32 24 (mul32 n packed_size))
    then none
    else some (record {
      term = read_u32_be pkt.payload 0;
      leader_id = read_u32_be pkt.payload 4;
      prev_log_idx = read_u32_be pkt.payload 8;
      prev_log_term = read_u32_be pkt.payload 12;
      leader_commit = to_int (read_u32_be pkt.payload 16);
      n_entries = n;
      entries = unpack_entries pkt.payload 24 n;
    })

-- Packing entries from `p` on leaves the words below `p` alone.
pub read-pack_entries_below :
    (m : Bytes) (p : ℕ) (es : List LogEntry) (q : ℕ)
    → q + 4 ≤ p
    → read_u32_be (pack_entries m p es) q ≡ read_u32_be m q
unfolding pack_entries
read-pack_entries_below m p [] q h = refl
read-pack_entries_below m p (e ∷ es) q h = omega (
  arith,
  read-pack_entries_below (log_entry_pack m p e) (p + 16) es q (omega arith),
  read-pack_ne m p e q (inl h),
)

-- The entry below `p` is not touched either.
unpack-pack_entries_below :
    (m : Bytes) (p : ℕ) (es : List LogEntry) (q : ℕ)
    → q + 16 ≤ p
    → log_entry_unpack (pack_entries m p es) q ≡ log_entry_unpack m q
unfolding log_entry_unpack
unpack-pack_entries_below m p es q h = ground (
  arith,
  read-pack_entries_below m p es q,
  read-pack_entries_below m p es (q + 4),
  read-pack_entries_below m p es (q + 8),
  read-pack_entries_below m p es (q + 12),
)

pub unpack-pack_entries :
    (m : Bytes) (p : ℕ) (es : List LogEntry)
    → AllWords es
    → unpack_entries (pack_entries m p es) p (length es) ≡ es
unfolding pack_entries unpack_entries
unpack-pack_entries m p [] w = refl
unpack-pack_entries m p (e ∷ es) w = ground (
  arith,
  unpack-pack_entries_below (log_entry_pack m p e) (p + 16) es p,
  unpack-pack m p e w.0,
  unpack-pack_entries (log_entry_pack m p e) (p + 16) es w.1,
)
