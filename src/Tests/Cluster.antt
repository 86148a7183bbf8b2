-- ===== src/Tests/Cluster.antt =====
-- Examples for the main loop, the dispatch of packets and the requests of clients.
use raft_research.Prelude.{suc, sym, length, ◌≡◌, refl, [], ◌∷◌, ◌++◌, arith}
use raft_research.Transport.{uninit_pkt}
use raft_research.Prelude.Int.{pos}
use mathlib.Core.List.{append-nil}
use raft_research.Rpc.Messages.{RequestVoteReq, ProcReq}
use raft_research.Raft.Node.{RaftNode, OutstandingReq, append_log_entry}
use raft_research.Raft.Send.{broadcast_append_entries}
use raft_research.Raft.Apply.{apply_to_state_machine}
use raft_research.Raft.Apply.Response.{Sends, answer_pkt}
use raft_research.Raft.Vote.{handle_request_vote_request}
use raft_research.Raft.Client.{new_entry, handle_proc_request}
use raft_research.Raft.Client.Waiting.{
  has_free, handle_proc_request-answered, handle_proc_request-log,
}
use raft_research.Raft.Dispatch.{packet, timed_out, failed, handle_received, raft_run}
use raft_research.Raft.Dispatch.Delivery.{call_req_vote, pack_message, handle_received-pack_message}
use raft_research.Raft.Progress.{Progress}
use raft_research.Raft.Progress.Loop.{raft_run-Progress}
use raft_research.Tests.Data.{a_follower, a_leader, whole}

abbrev ask : RequestVoteReq
ask = record { term = 3; candidate_id = 2; last_log_idx = 2; last_log_term = 2 }

handle_received-pack_message_example :
    handle_received whole (packet (pack_message uninit_pkt 0 2 (call_req_vote ask))) a_follower
    ≡ handle_request_vote_request 2 ask a_follower
handle_received-pack_message_example =
    handle_received-pack_message whole uninit_pkt 2 (call_req_vote ask) a_follower (record {
      term_fits = omega arith;
      candidate_fits = omega arith;
      last_idx_fits = omega arith;
      last_term_fits = omega arith;
    })

raft_run-Progress_example :
    Progress a_follower (raft_run whole (timed_out ∷ packet uninit_pkt ∷ failed ∷ []) a_follower)
raft_run-Progress_example =
    raft_run-Progress whole (timed_out ∷ packet uninit_pkt ∷ failed ∷ []) a_follower
      (tt, ((λ p. omega arith), (tt, tt))) (omega arith)

abbrev command : ProcReq
command = record { client_id = 9; cmd_seqno = 4; cmd = 77 }

handle_proc_request-log_example :
    (handle_proc_request command 9 a_leader).log
    ≡ a_leader.log ++ record { term = 2; client_id = 9; cmd_seqno = 4; cmd = 77 } ∷ []
handle_proc_request-log_example = handle_proc_request-log command 9 a_leader (omega arith)

-- The leader when the entries up to that of the request are committed.
abbrev committed : RaftNode
committed = record (handle_proc_request command 9 a_leader) {
  last_applied = pos 0;
  commit_index = pos (length a_leader.log);
}

handle_proc_request-answered_example :
    Sends
      (answer_pkt (new_entry command a_leader) committed)
      committed.io.sent
      (apply_to_state_machine committed).io.sent
unfolding has_free handle_proc_request append_log_entry broadcast_append_entries
handle_proc_request-answered_example =
    handle_proc_request-answered command 9 a_leader committed [] 1 (suc (length a_leader.log)) refl
      refl (omega arith) refl refl (sym (append-nil committed.log)) refl refl (omega arith)
      (omega arith)

-- A request of client 9 that waits for its command 10.
abbrev waiting : OutstandingReq
waiting = record { client_id = 9; cmd_seqno = 10; log_idx = 0; active = 1 }
