-- ===== src/Raft/Apply.antt =====
-- src/raft.c, `apply_to_state_machine`: committed entries are applied in order, and a leader answers
-- the client that waits for one.
pub mod Frame
pub mod Rounds
pub mod Answers
pub mod Response
use raft_research.Prelude.{
  ℕ, zero, suc, ◌+◌, ◌<◌, ◌≡◌, List, [], ◌∷◌, Option, none, some, Bool, true, false, ◌&&◌, not,
  ◌==◌, if◌then◌else◌,
}
use raft_research.Prelude.Int.{ℤ, pos, negsuc, ◌+ℤ◌, distance, ltb_ℤ}
use raft_research.LogEntry.{LogEntry}
use raft_research.Store.{log_read}
use raft_research.Rpc.Messages.{ProcRes}
use raft_research.Raft.Node.{RaftNode, OutstandingReq, is_leader, term_word}
use raft_research.Raft.Send.{send_proc_response}

-- The request that waits for the entry.
abbrev pub waits_for : LogEntry → OutstandingReq → Bool
waits_for e r = not (r.active == 0) && r.client_id == e.client_id && r.cmd_seqno == e.cmd_seqno

-- The loop over the slots, with its `break`: whether one waits for the entry, and the slots with
-- the first such one freed.
unfoldable pub release_req : LogEntry → List OutstandingReq → Bool × List OutstandingReq
release_req e [] = (false, [])
release_req e (r ∷ rs) =
    let (found, rs') = release_req e rs in
    if waits_for e r then (true, record r { active = 0 } ∷ rs) else (found, r ∷ rs')

abbrev pub success_response : LogEntry → RaftNode → ProcRes
success_response e node = record {
  client_id = e.client_id;
  cmd_seqno = e.cmd_seqno;
  success = 1;
  leader_hint = node.config.id;
  term = term_word node;
}

unfoldable pub answer_client : LogEntry → RaftNode → RaftNode
answer_client e node =
    let (found, reqs) = release_req e node.outstanding_reqs in
    let answered = send_proc_response e.client_id (success_response e node) node in
    if is_leader node.role && found then record answered { outstanding_reqs = reqs } else node

-- The body of the loop for the entry that was read; `none` is the `continue` after a failed read.
unfoldable pub apply_entry : Option LogEntry → RaftNode → RaftNode
apply_entry none node = node
apply_entry (some e) node = answer_client e node

unfoldable pub apply_one : RaftNode → RaftNode
apply_one node =
    let next = node.last_applied +ℤ pos 1 in
    apply_entry (log_read next node.log) (record node { last_applied = next })

-- `while (last_applied < commit_index)`, for at most `n` rounds.
unfoldable pub apply_rounds : ℕ → RaftNode → RaftNode
apply_rounds zero node = node
apply_rounds (suc n) node =
    let rest = apply_rounds n (apply_one node) in
    if ltb_ℤ node.last_applied node.commit_index then rest else node

-- Each round adds 1 to `last_applied` and leaves `commit_index`, so the loop makes no more rounds than
-- the distance between them.
unfoldable pub apply_to_state_machine : RaftNode → RaftNode
apply_to_state_machine node = apply_rounds (distance node.last_applied node.commit_index) node
