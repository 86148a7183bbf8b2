-- ===== src/Raft/Replicate/Handle.antt =====
-- src/raft.c, `handle_append_entries_response` as a whole: what a leader commits.
use raft_research.Prelude.{
  ℕ, ◌<◌, ◌≡◌, sym, ap, subst, ◌∙◌, ◌⊎◌, inl, inr, true, false, not, arith, ltb, ◌==◌, Bool-cases,
}
use raft_research.Prelude.Int.{ℤ, pos, ◌+ℤ◌, ◌≤ℤ◌, ◌<ℤ◌, distance, ltb_ℤ}
use raft_research.Store.{log_length}
use raft_research.Rpc.Messages.{AppendEntriesRes}
use raft_research.Raft.Node.{RaftNode, is_leader, term_word}
use raft_research.Raft.Apply.Frame.{apply_to_state_machine-SameState}
use raft_research.Raft.Replicate.{
  commit_rounds, advance_commit, record_match, handle_append_entries_response,
}
use raft_research.Raft.Replicate.Commit.{may_commit, commit_rounds-Settles, commit_rounds-last}

-- The commit index of `b` is that of `a`, or an entry behind it that may be committed; and no entry
-- behind it may be.
pub record CommitsNewest (cur_term : ℕ) (a b : RaftNode) : Type 0 where
  pub settles :
      (b.commit_index ≡ a.commit_index)
      ⊎ ((a.commit_index <ℤ b.commit_index)
          × (b.commit_index <ℤ log_length a.log)
          × (may_commit cur_term a b.commit_index ≡ true))
  pub newest :
      (n : ℤ)
      → a.commit_index <ℤ n
      → n <ℤ log_length a.log
      → may_commit cur_term a n ≡ true
      → n ≤ℤ b.commit_index

from_start : (c : ℤ) (i : ℕ) → c <ℤ c +ℤ pos 1 +ℤ pos i
from_start c i = ground arith

above_next : (c : ℤ) → c <ℤ c +ℤ pos 1
above_next c = ground arith

to_end : (c l : ℤ) (i : ℕ) → i < distance (c +ℤ pos 1) l → c +ℤ pos 1 +ℤ pos i <ℤ l
to_end c l i h = ground arith

at_distance : (c n : ℤ) → c <ℤ n → c +ℤ pos 1 +ℤ pos (distance (c +ℤ pos 1) n) ≡ n
at_distance c n h = ground arith

nearer : (c n l : ℤ) → c <ℤ n → n <ℤ l → distance (c +ℤ pos 1) n < distance (c +ℤ pos 1) l
nearer c n l h k = ground arith

advance_commit-CommitsNewest :
    (cur_term : ℕ) (node : RaftNode) → CommitsNewest cur_term node (advance_commit cur_term node)
unfolding advance_commit
advance_commit-CommitsNewest cur_term node =
    let start = node.commit_index +ℤ pos 1 in
    let rounds = distance start (log_length node.log) in
    let b = commit_rounds cur_term rounds start node in
    record {
      settles = elim (commit_rounds-Settles cur_term rounds start node) [
        | inl stays ↦ inl stays
        | inr (i, below, at, may) ↦ inr (
          subst (λ (n : ℤ). node.commit_index <ℤ n) (sym at) (from_start node.commit_index i),
          subst (λ (n : ℤ). n <ℤ log_length node.log) (sym at)
              (to_end node.commit_index (log_length node.log) i below),
          ap (may_commit cur_term node) at ∙ may,
        )
      ];
      newest = λ n above below may.
          let at = at_distance node.commit_index n above in
          subst (λ (m : ℤ). m ≤ℤ b.commit_index) at
            (commit_rounds-last cur_term rounds start node (distance start n)
              (above_next node.commit_index)
              (nearer node.commit_index n (log_length node.log) above below)
              (ap (may_commit cur_term node) at ∙ may));
    }

handle_append_entries_response-CommitsNewest :
    (src_id : ℕ) (resp : AppendEntriesRes) (node : RaftNode)
    → is_leader node.role ≡ true
    → resp.term ≡ term_word node
    → not (resp.success == 0) ≡ true
    → CommitsNewest
        (term_word node)
        (record_match src_id resp.new_match_index node)
        (handle_append_entries_response src_id resp node)
unfolding handle_append_entries_response
handle_append_entries_response-CommitsNewest src_id resp node leads same ok =
    let a = record_match src_id resp.new_match_index node in
    let b = advance_commit (term_word node) a in
    let kept = (apply_to_state_machine-SameState b).commit_index in
    let not_newer : ltb (term_word node) resp.term ≡ false = ground arith in
    let not_older : ltb resp.term (term_word node) ≡ false = ground arith in
    let rule = advance_commit-CommitsNewest (term_word node) a in
    rw (not_newer, leads, not_older, ok)
      record {
        settles = rw kept rule.settles;
        newest = λ n above below may. rw kept (rule.newest n above below may);
      }

-- A leader that gets a success response of its term leaves its commit index as it is, or moves it
-- forward to an entry that is in its log, is of its term, and is on a majority of the nodes by
-- `match_index`, the response counted.
pub handle_append_entries_response-may_commit :
    (src_id : ℕ) (resp : AppendEntriesRes) (node : RaftNode)
    → is_leader node.role ≡ true
    → resp.term ≡ term_word node
    → not (resp.success == 0) ≡ true
    → let b = handle_append_entries_response src_id resp node in
      (b.commit_index ≡ node.commit_index)
      ⊎ ((node.commit_index <ℤ b.commit_index)
          × (b.commit_index <ℤ log_length node.log)
          × (may_commit
                (term_word node)
                (record_match src_id resp.new_match_index node)
                b.commit_index
              ≡ true))
unfolding record_match
handle_append_entries_response-may_commit src_id resp node leads same ok =
    (handle_append_entries_response-CommitsNewest src_id resp node leads same ok).settles

-- After a leader has handled a success response of its term, every entry of its log that is of its
-- term and on a majority of the nodes by `match_index`, the response counted, is at or before its
-- commit index.
pub handle_append_entries_response-newest :
    (src_id : ℕ) (resp : AppendEntriesRes) (node : RaftNode) (n : ℤ)
    → is_leader node.role ≡ true
    → resp.term ≡ term_word node
    → not (resp.success == 0) ≡ true
    → n <ℤ log_length node.log
    → may_commit (term_word node) (record_match src_id resp.new_match_index node) n ≡ true
    → n ≤ℤ (handle_append_entries_response src_id resp node).commit_index
unfolding record_match
handle_append_entries_response-newest src_id resp node n leads same ok below may =
    let rule = handle_append_entries_response-CommitsNewest src_id resp node leads same ok in
    elim (Bool-cases (ltb_ℤ node.commit_index n)) [
      | inl above ↦ rule.newest n (ground arith) below may
      | inr reached ↦ elim rule.settles [
        | inl stays ↦ rw stays (ground arith)
        | inr (forward, within, may_be) ↦ ground arith
      ]
    ]
