-- ===== src/Tests/Rpc.antt =====
-- Examples for messages and log entries as bytes.
use raft_research.Prelude.{◌+◌, ◌*◌, ◌≤◌, ◌≡◌, refl, [], length}
use raft_research.Prelude.Int.{pos}
use raft_research.Memory.{read_u32_be}
use raft_research.Transport.{Pkt}
use raft_research.Rpc.Messages.{AppendEntriesReq, ProcRes}
use raft_research.Rpc.AppendEntries.{unpack_entries, unpack_append_entries_req}
use raft_research.Rpc.Bounds.{unpack_append_entries_req-bounds}

abbrev done : ProcRes
done = record { client_id = 9; cmd_seqno = 4; success = 1; leader_hint = 0; term = 2 }

abbrev empty_call : Pkt
empty_call = record {
  header = record { dst = 0; src = 1; payload_n = 24; code = 0 };
  payload = λ _. 0;
}

abbrev empty_request : AppendEntriesReq
empty_request = record {
  term = 0;
  leader_id = 0;
  prev_log_idx = 0;
  prev_log_term = 0;
  leader_commit = pos 0;
  n_entries = 0;
  entries = [];
}

unpack_append_entries_req-bounds_example :
    (empty_request.n_entries ≤ 32)
    × (length empty_request.entries ≡ empty_request.n_entries)
    × (24 + empty_request.n_entries * 16 ≤ empty_call.header.payload_n)
unfolding unpack_append_entries_req unpack_entries read_u32_be
unpack_append_entries_req-bounds_example =
    unpack_append_entries_req-bounds empty_call empty_request refl
