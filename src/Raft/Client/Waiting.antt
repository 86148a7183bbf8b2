-- ===== src/Raft/Client/Waiting.antt =====
-- src/raft.c, the outstanding requests of a leader, from `handle_proc_request` to the response of
-- `apply_to_state_machine`.
use raft_research.Raft.Append.Loop.{write_end}
use raft_research.Store.Bounds.{log_length-small, log_length-natural}
use raft_research.Prelude.{
  ℕ, ◌+◌, ◌<◌, ◌≤◌, ◌^◌, ◌≡◌, refl, ap, sym, subst, ◌∙◌, List, take, drop, ltb, [], ◌∷◌, ◌++◌, Bool,
  true, false, ◌||◌, arith, length, ◌==◌, if◌then◌else◌, Bool-cases, inl, inr,
}
use mathlib.Core.List.{append_assoc}
use raft_research.Prelude.Int.{pos, ◌+ℤ◌}
use raft_research.LogEntry.{LogEntry}
use raft_research.Rpc.Messages.{ProcReq}
use raft_research.Raft.Node.{RaftNode, OutstandingReq, is_leader, append_log_entry}
use raft_research.Raft.Send.{broadcast_append_entries}
use raft_research.Raft.Apply.{waits_for, release_req, apply_to_state_machine}
use raft_research.Raft.Apply.Rounds.{answer_all, moved_to, apply_to_state_machine_lem}
use raft_research.Raft.Apply.Response.{Sends, answer_pkt, answer_all-Sends, drop-take_middle}
use raft_research.Raft.Client.{claim_slot, new_entry, new_req, handle_proc_request}

-- A slot is free.
unfoldable pub has_free : List OutstandingReq → Bool
has_free [] = false
has_free (r ∷ rs) = r.active == 0 || has_free rs

-- How many requests wait.
unfoldable pub n_waiting : List OutstandingReq → ℕ
n_waiting [] = 0
n_waiting (r ∷ rs) = (if r.active == 0 then 0 else 1) + n_waiting rs

claim_slot-waits :
    (e : LogEntry) (new : OutstandingReq) (rs : List OutstandingReq)
    → has_free rs ≡ true
    → waits_for e new ≡ true
    → (release_req e (claim_slot new rs)).0 ≡ true
unfolding claim_slot has_free release_req
claim_slot-waits e new [] free waits = ground arith
claim_slot-waits e new (r ∷ rs) free waits = ground (arith, claim_slot-waits e new rs)

-- Applying an entry frees exactly one slot if a request waits for the entry, and none if not.
pub release_req-once :
    (e : LogEntry) (rs : List OutstandingReq)
    → let (found, left) = release_req e rs in
      n_waiting left + (if found then 1 else 0) ≡ n_waiting rs
unfolding release_req n_waiting
release_req-once e [] = refl
release_req-once e (r ∷ rs) = ground (arith, release_req-once e rs)

proc_request-outstanding :
    (req : ProcReq) (src_id : ℕ) (node : RaftNode)
    → is_leader node.role ≡ true
    → let b = handle_proc_request req src_id node in
      (is_leader b.role ≡ true)
      × (b.outstanding_reqs ≡ claim_slot (new_req req node) node.outstanding_reqs)
unfolding handle_proc_request append_log_entry broadcast_append_entries
proc_request-outstanding req src_id node leads = ground arith

-- A leader adds one entry, with its term and the client's command, at the end of its log for a
-- request; any other node leaves its log as it is. The log has fewer than 2^31 entries.
pub handle_proc_request-log :
    (req : ProcReq) (src_id : ℕ) (node : RaftNode)
    → length node.log < 2 ^ 31
    → (handle_proc_request req src_id node).log
      ≡ (if is_leader node.role then node.log ++ new_entry req node ∷ [] else node.log)
unfolding handle_proc_request append_log_entry broadcast_append_entries
handle_proc_request-log req src_id node small =
    let len = log_length-small node.log small in
    let nat = log_length-natural node.log small in
    let end = write_end node.log (length node.log) (new_entry req node) refl in
    elim (Bool-cases (is_leader node.role)) [
      | inl leads ↦ rw (leads, nat, len) end
      | inr not_leader ↦ rw not_leader refl
    ]

-- A leader that has a free slot for the request of a client, and that is still the leader, with the
-- same requests waiting and no entry removed from its log, when `apply_to_state_machine` runs from an
-- index up to that of the new entry to a commit index that covers it, sends the response of success to
-- that client in this run. The log has fewer than 2^31 entries before the request.
pub handle_proc_request-answered :
    (req : ProcReq) (src_id : ℕ) (node m : RaftNode) (more : List LogEntry) (a k : ℕ)
    → is_leader node.role ≡ true
    → has_free node.outstanding_reqs ≡ true
    → length node.log < 2 ^ 31
    → is_leader m.role ≡ true
    → m.outstanding_reqs ≡ (handle_proc_request req src_id node).outstanding_reqs
    → m.log ≡ (handle_proc_request req src_id node).log ++ more
    → m.last_applied +ℤ pos 1 ≡ pos a
    → m.commit_index +ℤ pos 1 ≡ pos k
    → a ≤ length node.log
    → length node.log < k
    → Sends (answer_pkt (new_entry req node) m) m.io.sent (apply_to_state_machine m).io.sent
handle_proc_request-answered req src_id node m more a k leads free small still same_reqs same_log at
      committed before covers =
    let e = new_entry req node in
    let reqs = (proc_request-outstanding req src_id node leads).1 in
    let waits : (release_req e m.outstanding_reqs).0 ≡ true =
      ap (λ rs. (release_req e rs).0) (same_reqs ∙ reqs)
      ∙ claim_slot-waits e (new_req req node) node.outstanding_reqs free (ground arith) in
    let log : m.log ≡ node.log ++ e ∷ more =
      same_log
      ∙ ap (λ l. l ++ more)
          (handle_proc_request-log req src_id node small
            ∙ ap (λ b. if b then node.log ++ e ∷ [] else node.log) leads)
      ∙ append_assoc node.log (e ∷ []) more in
    let (first, later, split) = drop-take_middle node.log e more a k before covers in
    let moved = if ltb a k then m.commit_index else m.last_applied in
    let applied : apply_to_state_machine m ≡ answer_all (first ++ e ∷ later) (moved_to moved m) =
      apply_to_state_machine_lem m a k at committed
      ∙ ap (λ es. answer_all es (moved_to moved m)) (ap (λ l. drop a (take k l)) log ∙ split) in
    subst (λ (n : RaftNode). Sends (answer_pkt e m) m.io.sent n.io.sent) (sym applied)
      (answer_all-Sends first e later (moved_to moved m) (answer_pkt e m) still waits refl)
