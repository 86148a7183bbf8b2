-- ===== src/Raft/Client.antt =====
-- src/raft.c, `handle_proc_request`: a leader takes a command from a client into its log.
pub mod Waiting
use raft_research.Prelude.{ℕ, ◌+◌, ◌<◌, ◌≡◌, List, [], ◌∷◌, Bool, true, false, ◌==◌, if◌then◌else◌}
use raft_research.Prelude.Int.{to_u32}
use raft_research.LogEntry.{LogEntry}
use raft_research.Store.{log_length}
use raft_research.Rpc.Messages.{ProcReq, ProcRes}
use raft_research.Raft.Node.{RaftNode, OutstandingReq, is_leader, term_word, append_log_entry}
use raft_research.Raft.Send.{send_proc_response, broadcast_append_entries}

-- The loop over the slots: the first free one is taken; with none free the request is not recorded.
unfoldable pub claim_slot : OutstandingReq → List OutstandingReq → List OutstandingReq
claim_slot new [] = []
claim_slot new (r ∷ rs) =
    let rest = claim_slot new rs in if r.active == 0 then new ∷ rs else r ∷ rest

abbrev pub redirect : ProcReq → RaftNode → ProcRes
redirect req node = record {
  client_id = req.client_id;
  cmd_seqno = req.cmd_seqno;
  success = 0;
  leader_hint = node.leader_id;
  term = term_word node;
}

abbrev pub new_entry : ProcReq → RaftNode → LogEntry
new_entry req node = record {
  term = term_word node;
  client_id = req.client_id;
  cmd_seqno = req.cmd_seqno;
  cmd = req.cmd;
}

abbrev pub new_req : ProcReq → RaftNode → OutstandingReq
new_req req node = record {
  client_id = req.client_id;
  cmd_seqno = req.cmd_seqno;
  log_idx = to_u32 (log_length node.log);
  active = 1;
}

unfoldable pub handle_proc_request : ProcReq → ℕ → RaftNode → RaftNode
handle_proc_request req src_id node =
    let appended = append_log_entry (new_entry req node) node in
    if is_leader node.role
    then broadcast_append_entries
        (record appended { outstanding_reqs = claim_slot (new_req req node) node.outstanding_reqs })
    else send_proc_response src_id (redirect req node) node
