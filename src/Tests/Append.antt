-- ===== src/Tests/Append.antt =====
-- Examples for the handler of AppendEntries.
use raft_research.Raft.Append.Loop.{append_loop-merge}
use raft_research.Prelude.{take, zero, suc, ◌≡◌, refl, [], ◌∷◌, true, inl, arith}
use raft_research.Prelude.Int.{pos}
use raft_research.Raft.Node.{raft_get_log_term}
use raft_research.Raft.Apply.{answer_client, apply_to_state_machine}
use raft_research.Raft.Apply.Rounds.{apply_to_state_machine_lem}
use raft_research.Raft.Append.{handle_append_entries_request, is_inconsistent, append_loop}
use raft_research.Raft.Append.Merge.{merge, HasTerms}
use raft_research.Raft.Append.Handle.{IsInRange, handle_append_entries_request-log}
use raft_research.Raft.Append.Reply.{accepts, Replies, handle_append_entries_request-reply}
use raft_research.Raft.Append.Commit.{handle_append_entries_request-commit}
use raft_research.Raft.Append.Terms.{handle_append_entries_request-again}
use raft_research.Raft.Append.Matching.{Matching}
use raft_research.Raft.Append.Agree.{append_entries-agree, append_entries-Matching}
use raft_research.Raft.Node.{RaftNode, leader}
use raft_research.Raft.Send.{append_entries_req}
use raft_research.Tests.Data.{entry, a_follower, request, repeated}

request-IsInRange : IsInRange request a_follower.log
request-IsInRange = record { index = inl (omega arith); few = omega arith; small = omega arith }

repeated-IsInRange : IsInRange repeated a_follower.log
repeated-IsInRange = record { index = inl (omega arith); few = omega arith; small = omega arith }

request-accepts : accepts request a_follower ≡ true
unfolding is_inconsistent raft_get_log_term
request-accepts = refl

repeated-accepts : accepts repeated a_follower ≡ true
unfolding is_inconsistent raft_get_log_term
repeated-accepts = refl

handle_append_entries_request-log_example :
    (handle_append_entries_request request a_follower).log ≡ entry 1 10 ∷ entry 3 20 ∷ []
unfolding is_inconsistent raft_get_log_term merge
handle_append_entries_request-log_example =
    handle_append_entries_request-log request a_follower request-IsInRange

handle_append_entries_request-reply_example :
    Replies request a_follower (handle_append_entries_request request a_follower) 1 1
unfolding is_inconsistent raft_get_log_term
handle_append_entries_request-reply_example =
    handle_append_entries_request-reply request a_follower (omega arith) refl

handle_append_entries_request-commit_example :
    (handle_append_entries_request request a_follower).commit_index ≡ pos 1
unfolding is_inconsistent raft_get_log_term
handle_append_entries_request-commit_example =
    handle_append_entries_request-commit request a_follower (omega arith) refl

repeated-HasTerms : HasTerms a_follower.log 1 (entry 1 11 ∷ [])
repeated-HasTerms zero e q = (entry 1 11, refl, ground arith)
repeated-HasTerms (suc k) e q = ground arith

handle_append_entries_request-again_example :
    (handle_append_entries_request repeated a_follower).log ≡ a_follower.log
handle_append_entries_request-again_example =
    handle_append_entries_request-again repeated a_follower repeated-IsInRange refl repeated-accepts
      repeated-HasTerms

append_loop-merge_example :
    append_loop 1 (entry 3 20 ∷ []) (a_follower.log, pos 3) ≡ (entry 1 10 ∷ entry 3 20 ∷ [], pos 2)
unfolding merge
append_loop-merge_example =
    append_loop-merge (entry 3 20 ∷ []) a_follower.log 1 (omega arith) (omega arith)

apply_to_state_machine_lem_example :
    apply_to_state_machine (record a_follower { last_applied = pos 0; commit_index = pos 1 })
    ≡ answer_client (entry 1 11) (record a_follower { last_applied = pos 1; commit_index = pos 1 })
apply_to_state_machine_lem_example =
    apply_to_state_machine_lem (record a_follower { last_applied = pos 0; commit_index = pos 1 }) 1
      2 refl refl

-- The leader of term 3 has an entry of its own behind one that the follower has.
abbrev ahead : RaftNode
ahead = record a_follower {
  role = leader;
  log = entry 1 10 ∷ entry 3 20 ∷ [];
  hard_state = record { current_term = 3; voted_for = 0 };
  next_index = 1 ∷ 1 ∷ 1 ∷ [];
}

ahead-Matching : Matching ahead.log a_follower.log
ahead-Matching zero x y p q eq = refl
ahead-Matching (suc zero) x y p q eq = ground arith
ahead-Matching (suc (suc k)) x y p q eq = ground arith

ahead-accepts : accepts (append_entries_req ahead 1 1) a_follower ≡ true
unfolding append_entries_req is_inconsistent raft_get_log_term
ahead-accepts = refl

append_entries-agree_example :
    take 2 (handle_append_entries_request (append_entries_req ahead 1 1) a_follower).log
    ≡ entry 1 10 ∷ entry 3 20 ∷ []
append_entries-agree_example =
    append_entries-agree ahead a_follower 1 1 ahead-Matching (omega arith) (omega arith)
      (omega arith) (omega arith) refl ahead-accepts

append_entries-Matching_example :
    Matching ahead.log (handle_append_entries_request (append_entries_req ahead 1 1) a_follower).log
append_entries-Matching_example =
    append_entries-Matching ahead a_follower 1 1 ahead-Matching (omega arith) (omega arith)
      (omega arith) (omega arith) refl ahead-accepts
