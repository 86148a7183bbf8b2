-- ===== src/Rpc.antt =====
-- src/rpc.c: packing the RPC messages into a packet and unpacking them. A pack function returns its
-- code beside the packet; an unpack function returns `none` where the code returns -1.
pub mod Messages
pub mod AppendEntries
pub mod RoundTrip
pub mod Bounds
use raft_research.Prelude.{ℕ, ◌+◌, ◌*◌, ◌<◌, Bool, Option, none, some, ltb, if◌then◌else◌}
use raft_research.Prelude.Int.{ℤ, pos, negsuc}
use raft_research.Memory.{write_u8, write_u32_be, read_u32_be}
use raft_research.Transport.{Pkt, max_payload}
use Messages.{
  AppendEntriesRes, RequestVoteReq, RequestVoteRes, ProcReq, ProcRes, rpc_resp_append_ent,
  rpc_call_req_vote, rpc_resp_req_vote, rpc_call_proc, rpc_resp_proc,
}

-- `if (payload_n > MAX_PAYLOAD) return -1; return 0;`
abbrev pub size_check : ℕ → ℤ
size_check n = if ltb max_payload n then negsuc 0 else pos 0

unfoldable pub pack_append_entries_res : Pkt → ℕ → ℕ → AppendEntriesRes → ℤ × Pkt
pack_append_entries_res pkt dst src res = (
  size_check 9,
  record {
    header = record { dst = dst; src = src; payload_n = 9; code = rpc_resp_append_ent };
    payload =
        write_u8 (write_u32_be (write_u32_be pkt.payload 0 res.term) 4 res.new_match_index) 8
          res.success;
  },
)

unfoldable pub unpack_append_entries_res : Pkt → Option AppendEntriesRes
unpack_append_entries_res pkt =
    if ltb pkt.header.payload_n 9
    then none
    else some (record {
      term = read_u32_be pkt.payload 0;
      new_match_index = read_u32_be pkt.payload 4;
      success = pkt.payload 8;
    })

unfoldable pub pack_request_vote_req : Pkt → ℕ → ℕ → RequestVoteReq → ℤ × Pkt
pack_request_vote_req pkt dst src req = (
  size_check 16,
  record {
    header = record { dst = dst; src = src; payload_n = 16; code = rpc_call_req_vote };
    payload =
        write_u32_be
          (write_u32_be (write_u32_be (write_u32_be pkt.payload 0 req.term) 4 req.candidate_id) 8
            req.last_log_idx)
          12 req.last_log_term;
  },
)

unfoldable pub unpack_request_vote_req : Pkt → Option RequestVoteReq
unpack_request_vote_req pkt =
    if ltb pkt.header.payload_n 16
    then none
    else some (record {
      term = read_u32_be pkt.payload 0;
      candidate_id = read_u32_be pkt.payload 4;
      last_log_idx = read_u32_be pkt.payload 8;
      last_log_term = read_u32_be pkt.payload 12;
    })

unfoldable pub pack_request_vote_res : Pkt → ℕ → ℕ → RequestVoteRes → ℤ × Pkt
pack_request_vote_res pkt dst src res = (
  size_check 5,
  record {
    header = record { dst = dst; src = src; payload_n = 5; code = rpc_resp_req_vote };
    payload = write_u8 (write_u32_be pkt.payload 0 res.term) 4 res.vote_granted;
  },
)

unfoldable pub unpack_request_vote_res : Pkt → Option RequestVoteRes
unpack_request_vote_res pkt =
    if ltb pkt.header.payload_n 5
    then none
    else some (record { term = read_u32_be pkt.payload 0; vote_granted = pkt.payload 4 })

unfoldable pub pack_proc_req : Pkt → ℕ → ℕ → ProcReq → ℤ × Pkt
pack_proc_req pkt dst src req = (
  size_check 12,
  record {
    header = record { dst = dst; src = src; payload_n = 12; code = rpc_call_proc };
    payload =
        write_u32_be (write_u32_be (write_u32_be pkt.payload 0 req.client_id) 4 req.cmd_seqno) 8
          req.cmd;
  },
)

unfoldable pub unpack_proc_req : Pkt → Option ProcReq
unpack_proc_req pkt =
    if ltb pkt.header.payload_n 12
    then none
    else some (record {
      client_id = read_u32_be pkt.payload 0;
      cmd_seqno = read_u32_be pkt.payload 4;
      cmd = read_u32_be pkt.payload 8;
    })

unfoldable pub pack_proc_res : Pkt → ℕ → ℕ → ProcRes → ℤ × Pkt
pack_proc_res pkt dst src res = (
  size_check 17,
  record {
    header = record { dst = dst; src = src; payload_n = 17; code = rpc_resp_proc };
    payload =
        write_u32_be
          (write_u32_be
            (write_u8 (write_u32_be (write_u32_be pkt.payload 0 res.client_id) 4 res.cmd_seqno) 8
              res.success)
            9 res.leader_hint)
          13 res.term;
  },
)

-- The size test is `payload_n < 13`, although 17 bytes are read.
unfoldable pub unpack_proc_res : Pkt → Option ProcRes
unpack_proc_res pkt =
    if ltb pkt.header.payload_n 13
    then none
    else some (record {
      client_id = read_u32_be pkt.payload 0;
      cmd_seqno = read_u32_be pkt.payload 4;
      success = pkt.payload 8;
      leader_hint = read_u32_be pkt.payload 9;
      term = read_u32_be pkt.payload 13;
    })
