-- ===== src/Raft/Send.antt =====
-- src/raft.c: packing a message and handing it to the transport, and the broadcasts. The results of
-- the pack functions and of the transport are not looked at.
pub mod Others
use raft_research.Prelude.{
  ℕ, zero, suc, ◌+◌, List, [], ◌∷◌, ◌++◌, Option, none, some, Bool, true, false, not, get_or,
  length, ltb, ◌==◌, if◌then◌else◌,
}
use raft_research.Prelude.Int.{ℤ, pos, negsuc, to_int, to_u32, sub32, ◌-ℤ◌, ◌+ℤ◌, ltb_ℤ}
use raft_research.LogEntry.{LogEntry}
use raft_research.Store.{Log, log_length, log_read}
use raft_research.Transport.{Pkt, uninit_pkt}
use raft_research.Rpc.Messages.{
  AppendEntriesReq, AppendEntriesRes, RequestVoteReq, RequestVoteRes, ProcRes, max_append_entries_n,
}
use raft_research.Rpc.{
  pack_append_entries_res, pack_request_vote_req, pack_request_vote_res, pack_proc_res,
}
use raft_research.Rpc.AppendEntries.{pack_append_entries_req}
use raft_research.Raft.Node.{RaftNode, term_word, is_leader, raft_get_log_term}

-- `transport.send`
abbrev pub send : Pkt → RaftNode → RaftNode
send pkt node = record node { io = record node.io { sent = node.io.sent ++ pkt ∷ [] } }

abbrev pub send_append_entries_request : ℕ → AppendEntriesReq → RaftNode → RaftNode
send_append_entries_request dst req node =
    send (pack_append_entries_req uninit_pkt dst node.config.id req).1 node

abbrev pub append_entries_response : ℕ → ℕ → ℕ → ℕ → ℕ → Pkt
append_entries_response dst src term new_match success =
    (pack_append_entries_res uninit_pkt dst src
      (record { term = term; new_match_index = new_match; success = success })).1

abbrev pub send_append_entries_response : ℕ → ℕ → ℕ → ℕ → RaftNode → RaftNode
send_append_entries_response dst term new_match success node =
    send (append_entries_response dst node.config.id term new_match success) node

abbrev pub send_request_vote_request : ℕ → RequestVoteReq → RaftNode → RaftNode
send_request_vote_request dst req node =
    send (pack_request_vote_req uninit_pkt dst node.config.id req).1 node

abbrev pub request_vote_response : ℕ → ℕ → ℕ → ℕ → Pkt
request_vote_response dst src term vote_granted =
    (pack_request_vote_res uninit_pkt dst src
      (record { term = term; vote_granted = vote_granted })).1

abbrev pub send_request_vote_response : ℕ → ℕ → ℕ → RaftNode → RaftNode
send_request_vote_response dst term vote_granted node =
    send (request_vote_response dst node.config.id term vote_granted) node

abbrev pub send_proc_response : ℕ → ProcRes → RaftNode → RaftNode
send_proc_response dst resp node = send (pack_proc_res uninit_pkt dst node.config.id resp).1 node

-- `for (i = 0; i < num_nodes; i++) { if (i == id) continue; .. }`, with `n` rounds left from `i` on:
-- the packets for the other nodes, in order.
unfoldable pub to_others : (ℕ → Pkt) → ℕ → ℕ → ℕ → List Pkt
to_others make id zero i = []
to_others make id (suc n) i =
    let rest = to_others make id n (i + 1) in if i == id then rest else make i ∷ rest

abbrev pub vote_request : RaftNode → RequestVoteReq
vote_request node = record {
  term = term_word node;
  candidate_id = node.config.id;
  last_log_idx = to_u32 (log_length node.log -ℤ pos 1);
  last_log_term = raft_get_log_term node.log (log_length node.log -ℤ pos 1);
}

unfoldable pub broadcast_request_vote : RaftNode → RaftNode
broadcast_request_vote node =
    let request =
      λ (i : ℕ). (pack_request_vote_req uninit_pkt i node.config.id (vote_request node)).1 in
    record node {
      io = record node.io {
        sent =
            if ltb_ℤ (log_length node.log) (pos 0)
            then node.io.sent
            else node.io.sent ++ to_others request node.config.id node.config.num_nodes 0;
      };
    }

-- The entries read in the loop over `j`; one that cannot be read stays as the stack had it.
abbrev uninit_entry : LogEntry
uninit_entry = record { term = 0; client_id = 0; cmd_seqno = 0; cmd = 0 }

abbrev or_uninit : Option LogEntry → LogEntry
or_uninit none = uninit_entry
or_uninit (some e) = e

unfoldable pub read_entries : Log → ℤ → ℕ → List LogEntry
read_entries log idx zero = []
read_entries log idx (suc n) = or_uninit (log_read idx log) ∷ read_entries log (idx +ℤ pos 1) n

-- `n_to_send`, between 0 and MAX_APPEND_ENTRIES_N.
unfoldable pub n_to_send : ℤ → ℤ → ℕ
n_to_send log_len next =
    let n = log_len -ℤ next in
    if ltb_ℤ (pos max_append_entries_n) n
    then max_append_entries_n
    else if ltb_ℤ n (pos 0)
    then 0
    else to_u32 n

-- The request to node `i` with `n` entries.
unfoldable pub append_entries_req : RaftNode → ℕ → ℕ → AppendEntriesReq
append_entries_req node i n =
    let next = get_or node.next_index i 0 in
    record {
      term = term_word node;
      leader_id = node.config.id;
      prev_log_idx = sub32 next 1;
      prev_log_term = raft_get_log_term node.log (to_int next -ℤ pos 1);
      leader_commit = node.commit_index;
      n_entries = n;
      entries = read_entries node.log (to_int next) n;
    }

-- Which of its arguments `count` gives the number of entries for node `i`.
unfoldable pub leader_broadcast : (ℕ → ℕ) → RaftNode → RaftNode
leader_broadcast count node =
    let request = λ (i : ℕ).
      (pack_append_entries_req uninit_pkt i node.config.id
        (append_entries_req node i (count i))).1 in
    record node {
      io = record node.io {
        sent =
            if is_leader node.role
            then node.io.sent ++ to_others request node.config.id node.config.num_nodes 0
            else node.io.sent;
      };
    }

unfoldable pub broadcast_append_entries : RaftNode → RaftNode
unfolding leader_broadcast
broadcast_append_entries node =
    leader_broadcast (λ i. n_to_send (log_length node.log) (to_int (get_or node.next_index i 0)))
      node

unfoldable pub send_heartbeats : RaftNode → RaftNode
unfolding leader_broadcast
send_heartbeats node = leader_broadcast (λ _. 0) node
