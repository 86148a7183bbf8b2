-- ===== src/Rpc/Bounds.antt =====
-- src/rpc.c: what a packet that is unpacked is known to satisfy.
use raft_research.Prelude.{ℕ, suc, ◌+◌, ◌*◌, ◌^◌, ◌≤◌, ◌<◌, ◌≡◌, refl, ap, some, length, arith}
use raft_research.Memory.{Bytes, read_u32_be}
use raft_research.Transport.{Pkt}
use raft_research.Rpc.Messages.{
  AppendEntriesReq, AppendEntriesRes, RequestVoteReq, RequestVoteRes, max_append_entries_n,
}
use raft_research.Rpc.AppendEntries.{unpack_entries, unpack_append_entries_req}
use raft_research.Rpc.{unpack_append_entries_res, unpack_request_vote_req, unpack_request_vote_res}

-- The payload is made of bytes.
abbrev pub IsBytes : Bytes → Type 0
IsBytes m = (p : ℕ) → m p < 256

pub read_u32-lt : (m : Bytes) (p : ℕ) → IsBytes m → read_u32_be m p < 2 ^ 32
unfolding read_u32_be
read_u32-lt m p b = omega (arith, b p, b (p + 1), b (p + 2), b (p + 3))

length-unpack_entries : (m : Bytes) (p n : ℕ) → length (unpack_entries m p n) ≡ n
unfolding unpack_entries
length-unpack_entries m p ℕ.zero = refl
length-unpack_entries m p (suc n) = ap suc (length-unpack_entries m (p + 16) n)

module _ (pkt : Pkt) where
  -- A request that is accepted has at most 32 entries, as many as it counts, and they all lie in
  -- the part of the payload that the header declares.
  pub unpack_append_entries_req-bounds :
      (m : AppendEntriesReq)
      → unpack_append_entries_req pkt ≡ some m
      → (m.n_entries ≤ max_append_entries_n)
        × (length m.entries ≡ m.n_entries)
        × (24 + m.n_entries * 16 ≤ pkt.header.payload_n)
  unfolding unpack_append_entries_req
  unpack_append_entries_req-bounds m h =
      ground (arith, length-unpack_entries pkt.payload 24 (read_u32_be pkt.payload 20))

module _ (pkt : Pkt) (bytes : IsBytes pkt.payload) where
  pub append_entries_req-term :
      (m : AppendEntriesReq) → unpack_append_entries_req pkt ≡ some m → m.term < 2 ^ 32
  unfolding unpack_append_entries_req
  append_entries_req-term m h = ground (arith, read_u32-lt pkt.payload 0 bytes)

  pub append_entries_res-term :
      (m : AppendEntriesRes) → unpack_append_entries_res pkt ≡ some m → m.term < 2 ^ 32
  unfolding unpack_append_entries_res
  append_entries_res-term m h = ground (arith, read_u32-lt pkt.payload 0 bytes)

  pub request_vote_req-term :
      (m : RequestVoteReq) → unpack_request_vote_req pkt ≡ some m → m.term < 2 ^ 32
  unfolding unpack_request_vote_req
  request_vote_req-term m h = ground (arith, read_u32-lt pkt.payload 0 bytes)

  pub request_vote_res-term :
      (m : RequestVoteRes) → unpack_request_vote_res pkt ≡ some m → m.term < 2 ^ 32
  unfolding unpack_request_vote_res
  request_vote_res-term m h = ground (arith, read_u32-lt pkt.payload 0 bytes)
