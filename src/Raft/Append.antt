-- ===== src/Raft/Append.antt =====
-- src/raft.c, `handle_append_entries_request`: a follower takes entries from the leader.
pub mod Merge
pub mod Loop
pub mod Follow
pub mod Handle
pub mod Reply
pub mod Commit
pub mod Terms
pub mod Matching
pub mod Agree
use raft_research.Prelude.{
  ℕ, ◌+◌, ◌^◌, ◌<◌, ◌≡◌, List, [], ◌∷◌, Bool, true, false, not, ◌&&◌, ◌||◌, take, ltb, ◌==◌,
  if◌then◌else◌,
}
use raft_research.Prelude.Int.{
  ℤ, pos, negsuc, to_int, to_u32, add32, sub64, ◌+ℤ◌, ◌-ℤ◌, ltb_ℤ, leb_ℤ,
}
use raft_research.LogEntry.{LogEntry}
use raft_research.Store.{Log, log_length, log_write, log_remove_last_n, get_term}
use raft_research.Accrual.{record_interval}
use raft_research.Io.{EventName, heartbeat, get_usec}
use raft_research.Rpc.Messages.{AppendEntriesReq}
use raft_research.Raft.Node.{RaftNode, is_candidate, is_follower, raft_get_log_term}
use raft_research.Raft.Timers.{set_fault_detect_timer, telemetry_log}
use raft_research.Raft.Send.{send_append_entries_response}
use raft_research.Raft.Roles.{become_follower}
use raft_research.Raft.Apply.{apply_to_state_machine}

-- One round of the loop over the entries, on the log and on `log_len`: an entry that is there is
-- skipped, one of another term makes way with all behind it, and the new one is written.
unfoldable pub append_step : ℕ → LogEntry → Log × ℤ → Log × ℤ
append_step log_idx e (log, log_len) =
    let at = to_int log_idx in
    if ltb log_idx (to_u32 log_len)
    then (if raft_get_log_term log at == e.term
        then (log, log_len)
        else (log_write at e (log_remove_last_n (log_len -ℤ at) log), at +ℤ pos 1))
    else (log_write at e log, log_len +ℤ pos 1)

-- The loop over the entries that are left, the first of which belongs at `log_idx`.
unfoldable pub append_loop : ℕ → List LogEntry → Log × ℤ → Log × ℤ
append_loop log_idx [] s = s
append_loop log_idx (e ∷ es) s = append_loop (add32 log_idx 1) es (append_step log_idx e s)

-- The sender is the leader of the term.
unfoldable pub accept_leader : AppendEntriesReq → ℕ → RaftNode → RaftNode
accept_leader req cur_term node =
    if ltb cur_term req.term || (req.term == cur_term && is_candidate node.role)
    then become_follower req.term req.leader_id node
    else record node { leader_id = req.leader_id }

-- A request with no entries is a heartbeat, whose interval a follower records.
unfoldable pub record_heartbeat : AppendEntriesReq → ℕ → RaftNode → RaftNode
unfolding telemetry_log
record_heartbeat req cur_term node =
    let (now, io) = get_usec node.io in
    let last = node.heartbeat_telemetry.last_heartbeat_usec in
    let interval : ℕ = if last == 0 then 0 else sub64 now last in
    let recorded = record node {
      io = io;
      heartbeat_telemetry = record_interval now node.heartbeat_telemetry;
    } in
    if is_follower node.role && req.n_entries == 0
    then (if interval == 0
        then recorded
        else telemetry_log EventName.heartbeat cur_term interval recorded)
    else node

-- `prev_log_idx` is past the log, or the entry there has another term.
unfoldable pub is_inconsistent : AppendEntriesReq → Log → Bool
is_inconsistent req log =
    leb_ℤ (log_length log) (to_int req.prev_log_idx)
    || not (raft_get_log_term log (to_int req.prev_log_idx) == req.prev_log_term)

-- prev_log_idx + n_entries
abbrev pub last_new_idx : AppendEntriesReq → ℕ
last_new_idx req = add32 req.prev_log_idx req.n_entries

-- The commit index moves up to the leader's, or to the last entry of the request.
unfoldable pub follow_commit : AppendEntriesReq → RaftNode → RaftNode
follow_commit req node =
    let last_new = to_int (last_new_idx req) in
    if ltb_ℤ node.commit_index req.leader_commit
    then apply_to_state_machine (record node {
      commit_index = if ltb_ℤ req.leader_commit last_new then req.leader_commit else last_new;
    })
    else node

unfoldable pub append_entries_to : AppendEntriesReq → RaftNode → RaftNode
append_entries_to req node =
    let (log, _) =
      append_loop (add32 req.prev_log_idx 1) (take req.n_entries req.entries)
        (node.log, log_length node.log) in
    record node { log = log }

-- The part after the timer is set.
unfoldable pub replicate_entries : AppendEntriesReq → ℕ → RaftNode → RaftNode
replicate_entries req cur_term node =
    if ltb_ℤ (log_length node.log) (pos 0)
    then node
    else if is_inconsistent req node.log
    then send_append_entries_response req.leader_id cur_term 0 0 node
    else send_append_entries_response req.leader_id cur_term (last_new_idx req) 1
        (follow_commit req (append_entries_to req node))

-- `cur_term` is the term before the request, in the response too.
unfoldable pub handle_append_entries_request : AppendEntriesReq → RaftNode → RaftNode
handle_append_entries_request req node =
    let cur_term = to_u32 (get_term node.hard_state) in
    if ltb_ℤ (get_term node.hard_state) (pos 0)
    then node
    else if ltb req.term cur_term
    then send_append_entries_response req.leader_id cur_term 0 0 node
    else replicate_entries req cur_term
        (set_fault_detect_timer (record_heartbeat req cur_term (accept_leader req cur_term node)))
