-- ===== src/Rpc/RoundTrip.antt =====
-- src/rpc.c: unpacking what was packed.
use raft_research.Prelude.{ℕ, ◌≤◌, ◌≡◌, List, some, arith, take-all}
use raft_research.Prelude.Int.{pos, to_u32, to_int-to_u32, to_u32-lt}
use raft_research.Memory.{Bytes, write_u32_be, read_u32_be}
use raft_research.LogEntry.{LogEntry}
use raft_research.Transport.{Pkt, max_payload}
use raft_research.Rpc.Messages.{
  AppendEntriesReq, AppendEntriesRes, RequestVoteReq, RequestVoteRes, ProcReq, ProcRes,
  IsAppendEntriesReq, IsAppendEntriesRes, IsRequestVoteReq, IsRequestVoteRes, IsProcReq, IsProcRes,
}
use raft_research.Rpc.AppendEntries.{
  pack_fixed, pack_entries, pack_append_entries_req, unpack_append_entries_req,
  read-pack_entries_below, unpack-pack_entries,
}
use raft_research.Rpc.{
  pack_append_entries_res, unpack_append_entries_res, pack_request_vote_req,
  unpack_request_vote_req, pack_request_vote_res, unpack_request_vote_res, pack_proc_req,
  unpack_proc_req, pack_proc_res, unpack_proc_res,
}

-- The words of the fixed part, read back from a payload that has the entries too.
record FixedPart (m : AppendEntriesReq) (b : Bytes) : Type 0 where
  at_term : read_u32_be b 0 ≡ m.term
  at_leader : read_u32_be b 4 ≡ m.leader_id
  at_prev_idx : read_u32_be b 8 ≡ m.prev_log_idx
  at_prev_term : read_u32_be b 12 ≡ m.prev_log_term
  at_commit : read_u32_be b 16 ≡ to_u32 m.leader_commit
  at_count : read_u32_be b 20 ≡ m.n_entries

pack_fixed-FixedPart :
    (b : Bytes) (m : AppendEntriesReq) → IsAppendEntriesReq m → FixedPart m (pack_fixed b m)
unfolding pack_fixed write_u32_be read_u32_be
pack_fixed-FixedPart b m w = record {
  at_term = omega arith;
  at_leader = omega arith;
  at_prev_idx = omega arith;
  at_prev_term = omega arith;
  at_commit = omega (arith, to_u32-lt m.leader_commit);
  at_count = omega arith;
}

pack_entries-FixedPart :
    (b : Bytes) (m : AppendEntriesReq) (es : List LogEntry)
    → FixedPart m b
    → FixedPart m (pack_entries b 24 es)
pack_entries-FixedPart b m es h = record {
  at_term = omega (arith, read-pack_entries_below b 24 es 0);
  at_leader = omega (arith, read-pack_entries_below b 24 es 4);
  at_prev_idx = omega (arith, read-pack_entries_below b 24 es 8);
  at_prev_term = omega (arith, read-pack_entries_below b 24 es 12);
  at_commit = omega (arith, read-pack_entries_below b 24 es 16);
  at_count = omega (arith, read-pack_entries_below b 24 es 20);
}

module _ (pkt : Pkt) (dst src : ℕ) where
  -- An AppendEntries response whose fields fit their types is packed with code 0 and comes out of
  -- unpacking unchanged.
  pub append_entries_res_round_trip :
      (m : AppendEntriesRes)
      → IsAppendEntriesRes m
      → let (rc, out) = pack_append_entries_res pkt dst src m in
        (rc ≡ pos 0) × (unpack_append_entries_res out ≡ some m)
  unfolding pack_append_entries_res unpack_append_entries_res write_u32_be read_u32_be
  append_entries_res_round_trip m w = ground arith

  pub request_vote_req_round_trip :
      (m : RequestVoteReq)
      → IsRequestVoteReq m
      → let (rc, out) = pack_request_vote_req pkt dst src m in
        (rc ≡ pos 0) × (unpack_request_vote_req out ≡ some m)
  unfolding pack_request_vote_req unpack_request_vote_req write_u32_be read_u32_be
  request_vote_req_round_trip m w = ground arith

  pub request_vote_res_round_trip :
      (m : RequestVoteRes)
      → IsRequestVoteRes m
      → let (rc, out) = pack_request_vote_res pkt dst src m in
        (rc ≡ pos 0) × (unpack_request_vote_res out ≡ some m)
  unfolding pack_request_vote_res unpack_request_vote_res write_u32_be read_u32_be
  request_vote_res_round_trip m w = ground arith

  pub proc_req_round_trip :
      (m : ProcReq)
      → IsProcReq m
      → let (rc, out) = pack_proc_req pkt dst src m in (rc ≡ pos 0) × (unpack_proc_req out ≡ some m)
  unfolding pack_proc_req unpack_proc_req write_u32_be read_u32_be
  proc_req_round_trip m w = ground arith

  -- A response to a client whose fields fit their types is packed with code 0 and comes out of
  -- unpacking unchanged.
  pub proc_res_round_trip :
      (m : ProcRes)
      → IsProcRes m
      → let (rc, out) = pack_proc_res pkt dst src m in (rc ≡ pos 0) × (unpack_proc_res out ≡ some m)
  unfolding pack_proc_res unpack_proc_res write_u32_be read_u32_be
  proc_res_round_trip m w = ground arith

  -- An AppendEntries request with as many entries as it counts, at most 32 of them, is packed with
  -- code 0 into a payload within MAX_PAYLOAD, and comes out of unpacking unchanged.
  pub append_entries_req_round_trip :
      (m : AppendEntriesReq)
      → IsAppendEntriesReq m
      → let (rc, out) = pack_append_entries_req pkt dst src m in
        (rc ≡ pos 0)
        × (out.header.payload_n ≤ max_payload)
        × (unpack_append_entries_req out ≡ some m)
  unfolding pack_append_entries_req unpack_append_entries_req
  append_entries_req_round_trip m w =
      let fixed = pack_fixed pkt.payload m in
      ground (
        arith,
        take-all m.n_entries m.entries,
        pack_entries-FixedPart fixed m m.entries (pack_fixed-FixedPart pkt.payload m w),
        unpack-pack_entries fixed 24 m.entries w.entries_fit,
        to_int-to_u32 m.leader_commit w.commit_fits,
      )
