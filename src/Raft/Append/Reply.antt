-- ===== src/Raft/Append/Reply.antt =====
-- src/raft.c, `handle_append_entries_request`: the response to the leader.
use raft_research.Raft.Append.Follow.{follow_commit-SameState}
use raft_research.Store.Bounds.{log_length-natural}
use raft_research.Prelude.{
  ℕ, ◌^◌, ◌<◌, ◌≡◌, refl, ap, ap₂, ◌∙◌, List, [], ◌∷◌, ◌++◌, Bool, true, false, not, ◌&&◌, arith,
  length, ltb, if◌then◌else◌, Bool-cases, inl, inr,
}
use mathlib.Core.List.{append-nil}
use raft_research.Prelude.Int.{pos, ltb_ℤ}
use raft_research.Store.{Log, log_length, get_term}
use raft_research.Transport.{Pkt}
use raft_research.Rpc.Messages.{AppendEntriesReq}
use raft_research.Raft.Node.{RaftNode, RaftConfig, term_word}
use raft_research.Raft.Send.{append_entries_response}
use raft_research.Raft.Timers.{set_fault_detect_timer}
use raft_research.Raft.Roles.{become_follower}
use raft_research.Raft.Apply.Answers.{
  AllResponses, Extends, Extends-refl, apply_to_state_machine-Extends,
}
use raft_research.Raft.Append.{
  accept_leader, record_heartbeat, is_inconsistent, last_new_idx, follow_commit, append_entries_to,
  replicate_entries, handle_append_entries_request,
}
use raft_research.Raft.Append.Handle.{prepared, prepared-log}

-- The request is of the current term or a later one, and fits the log.
abbrev pub accepts : AppendEntriesReq → RaftNode → Bool
accepts req node = not (ltb req.term (term_word node)) && not (is_inconsistent req node.log)

follow_commit-Extends :
    (req : AppendEntriesReq) (node : RaftNode)
    → Extends node.io.sent (follow_commit req node).io.sent
unfolding follow_commit
follow_commit-Extends req node = elim (Bool-cases (ltb_ℤ node.commit_index req.leader_commit)) [
  | inl up ↦ rw up (apply_to_state_machine-Extends _)
  | inr stays ↦ rw stays (Extends-refl node.io.sent)
]

prepared-sent :
    (req : AppendEntriesReq) (cur_term : ℕ) (node : RaftNode)
    → (prepared req cur_term node).io.sent ≡ node.io.sent
unfolding set_fault_detect_timer record_heartbeat accept_leader become_follower
prepared-sent req cur_term node = ground arith

prepared-config :
    (req : AppendEntriesReq) (cur_term : ℕ) (node : RaftNode)
    → (prepared req cur_term node).config ≡ node.config
unfolding set_fault_detect_timer record_heartbeat accept_leader become_follower
prepared-config req cur_term node = ground arith

-- To what was sent before, `b` adds responses to clients, none where the request fails, and then the
-- response to the leader, with the term of `a`.
abbrev pub Replies : AppendEntriesReq → RaftNode → RaftNode → ℕ → ℕ → Type 0
Replies req a b new_match success =
    (ps : List Pkt) × AllResponses ps
    × (success ≡ 0 → ps ≡ [])
    × (b.io.sent
        ≡ a.io.sent
          ++ ps
          ++ append_entries_response req.leader_id a.config.id (term_word a) new_match success ∷ [])

replicate_entries-reply :
    (req : AppendEntriesReq) (a node : RaftNode) (bad : Bool)
    → ltb_ℤ (log_length node.log) (pos 0) ≡ false
    → is_inconsistent req node.log ≡ bad
    → node.io.sent ≡ a.io.sent
    → node.config ≡ a.config
    → Replies req a
        (replicate_entries req (term_word a) node)
        (if not bad then last_new_idx req else 0)
        (if not bad then 1 else 0)
unfolding replicate_entries append_entries_to
replicate_entries-reply req a node true natural bad sent config =
    rw (natural, bad, sent, config) ([], tt, (λ h. refl), rw append-nil refl)
replicate_entries-reply req a node false natural fits sent config =
    let written = append_entries_to req node in
    let (ps, all, more) = follow_commit-Extends req written in
    let same : (follow_commit req written).config ≡ a.config =
      (follow_commit-SameState req written).config ∙ config in
    rw (natural, fits)
      (
        ps,
        all,
        (λ h. absurd (omega (arith, h))),
        ap₂
            (λ (sent : List Pkt) (c : RaftConfig).
              sent
              ++ append_entries_response req.leader_id c.id (term_word a) (last_new_idx req) 1 ∷ [])
            (more ∙ ap (λ (l : List Pkt). l ++ ps) sent) same,
      )

-- Every AppendEntries request is answered by one response to the leader that it names, the last packet
-- sent; all packets that go out before it are responses to clients, none where it reports failure. It carries the term that the node had before the request. It reports success
-- and the index of the last new entry when the request is not of an older term and fits the log, and
-- failure otherwise. The term and the length of the log are below 2^31.
pub handle_append_entries_request-reply :
    (req : AppendEntriesReq) (node : RaftNode)
    → length node.log < 2 ^ 31
    → ltb_ℤ (get_term node.hard_state) (pos 0) ≡ false
    → Replies req node
        (handle_append_entries_request req node)
        (if accepts req node then last_new_idx req else 0)
        (if accepts req node then 1 else 0)
unfolding handle_append_entries_request
handle_append_entries_request-reply req node small natural =
    elim (Bool-cases (ltb req.term (term_word node))) [
      | inl old ↦ rw (natural, old) ([], tt, (λ h. refl), rw append-nil refl)
      | inr current ↦
          let log = prepared-log req (term_word node) node in
          rw (natural, current)
            (replicate_entries-reply req node (prepared req (term_word node) node)
              (is_inconsistent req node.log)
              (ap (λ (l : Log). ltb_ℤ (log_length l) (pos 0)) log
                ∙ log_length-natural node.log small)
              (ap (is_inconsistent req) log) (prepared-sent req (term_word node) node)
              (prepared-config req (term_word node) node))
    ]
