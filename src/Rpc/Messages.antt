-- ===== src/Rpc/Messages.antt =====
-- src/rpc.h: the RPC codes and the messages, with the range of each field as a predicate.
use raft_research.Prelude.{ℕ, ◌<◌, ◌≤◌, ◌^◌, ◌≡◌, List, [], ◌∷◌, length}
use raft_research.Prelude.Int.{ℤ, IsInt32}
use raft_research.LogEntry.{LogEntry, IsWord}

abbrev pub max_append_entries_n : ℕ
max_append_entries_n = 32

-- The members of the anonymous enum.
abbrev pub rpc_call_append_ent : ℕ
rpc_call_append_ent = 0

abbrev pub rpc_resp_append_ent : ℕ
rpc_resp_append_ent = 1

abbrev pub rpc_call_req_vote : ℕ
rpc_call_req_vote = 2

abbrev pub rpc_resp_req_vote : ℕ
rpc_resp_req_vote = 3

abbrev pub rpc_call_proc : ℕ
rpc_call_proc = 4

abbrev pub rpc_resp_proc : ℕ
rpc_resp_proc = 5

abbrev pub rpc_shutdown : ℕ
rpc_shutdown = 99

-- `append_entries_req_t`. The list is the part of the array that has been filled.
pub record AppendEntriesReq : Type 0 where
  pub term : ℕ
  pub leader_id : ℕ
  pub prev_log_idx : ℕ
  pub prev_log_term : ℕ
  pub leader_commit : ℤ
  pub n_entries : ℕ
  pub entries : List LogEntry

-- `append_entries_res_t`
pub record AppendEntriesRes : Type 0 where
  pub term : ℕ
  pub new_match_index : ℕ
  pub success : ℕ

-- `request_vote_req_t`
pub record RequestVoteReq : Type 0 where
  pub term : ℕ
  pub candidate_id : ℕ
  pub last_log_idx : ℕ
  pub last_log_term : ℕ

-- `request_vote_res_t`
pub record RequestVoteRes : Type 0 where
  pub term : ℕ
  pub vote_granted : ℕ

-- `proc_req_t`
pub record ProcReq : Type 0 where
  pub client_id : ℕ
  pub cmd_seqno : ℕ
  pub cmd : ℕ

-- `proc_res_t`
pub record ProcRes : Type 0 where
  pub client_id : ℕ
  pub cmd_seqno : ℕ
  pub success : ℕ
  pub leader_hint : ℕ
  pub term : ℕ

abbrev pub AllWords : List LogEntry → Type 0
AllWords [] = Unit {0}
AllWords (e ∷ es) = IsWord e × AllWords es

-- The fields lie in their C types, and `n_entries` counts the entries.
pub record IsAppendEntriesReq (m : AppendEntriesReq) : Type 0 where
  pub term_fits : m.term < 2 ^ 32
  pub leader_fits : m.leader_id < 2 ^ 32
  pub prev_idx_fits : m.prev_log_idx < 2 ^ 32
  pub prev_term_fits : m.prev_log_term < 2 ^ 32
  pub commit_fits : IsInt32 m.leader_commit
  pub counted : m.n_entries ≡ length m.entries
  pub within : m.n_entries ≤ max_append_entries_n
  pub entries_fit : AllWords m.entries

pub record IsAppendEntriesRes (m : AppendEntriesRes) : Type 0 where
  pub term_fits : m.term < 2 ^ 32
  pub match_fits : m.new_match_index < 2 ^ 32
  pub success_fits : m.success < 256

pub record IsRequestVoteReq (m : RequestVoteReq) : Type 0 where
  pub term_fits : m.term < 2 ^ 32
  pub candidate_fits : m.candidate_id < 2 ^ 32
  pub last_idx_fits : m.last_log_idx < 2 ^ 32
  pub last_term_fits : m.last_log_term < 2 ^ 32

pub record IsRequestVoteRes (m : RequestVoteRes) : Type 0 where
  pub term_fits : m.term < 2 ^ 32
  pub granted_fits : m.vote_granted < 256

pub record IsProcReq (m : ProcReq) : Type 0 where
  pub client_fits : m.client_id < 2 ^ 32
  pub seqno_fits : m.cmd_seqno < 2 ^ 32
  pub cmd_fits : m.cmd < 2 ^ 32

pub record IsProcRes (m : ProcRes) : Type 0 where
  pub client_fits : m.client_id < 2 ^ 32
  pub seqno_fits : m.cmd_seqno < 2 ^ 32
  pub success_fits : m.success < 256
  pub hint_fits : m.leader_hint < 2 ^ 32
  pub term_fits : m.term < 2 ^ 32
