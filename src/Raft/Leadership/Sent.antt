-- ===== src/Raft/Leadership/Sent.antt =====
-- src/raft.c: a node that has sent its vote in a run has voted.
use raft_research.Prelude.{
  ℕ, suc, ◌<◌, ◌^◌, ◌≡◌, ◌≢◌, refl, ap, sym, subst, ◌∙◌, List, [], ◌∷◌, ◌++◌, true, false, arith,
  inl, inr, Bool-cases, take, length,
}
use raft_research.Float.{Double}
use raft_research.Store.{no_vote}
use raft_research.Raft.Node.{RaftNode, is_candidate, is_follower}
use raft_research.Raft.Send.{request_vote_response}
use raft_research.Raft.Vote.Grant.{IsNatural}
use raft_research.Raft.Dispatch.{Received, raft_run}
use raft_research.Raft.Progress.Loop.{AllBytes, raft_run-Progress}
use raft_research.Raft.Leadership.Quorum.{Voted, AllBytes-take, raft_run-append}
use raft_research.Raft.Leadership.Own.{raft_run-VotesForItself}
use raft_research.Raft.Leadership.Recorded.{run-Records}

-- In a turn of its run the node has sent its vote of the term to `c`. The term and the vote that it had before the turn are below 2^31.
pub record SentVote (fp : Double) (evs : List Received) (node : RaftNode) (term c : ℕ)
    : Type 0 where
  pub before : List Received
  pub ev : Received
  pub later : List Received
  pub split : evs ≡ before ++ ev ∷ later
  pub small : IsNatural (raft_run fp before node).hard_state
  pub sent :
      (raft_run fp (before ++ ev ∷ []) node).io.sent
      ≡ (raft_run fp before node).io.sent ++ request_vote_response c node.config.id term 1 ∷ []

take-split :
    (xs : List Received) (x : Received) (ys : List Received)
    → take (suc (length xs)) (xs ++ x ∷ ys) ≡ xs ++ x ∷ []
take-split [] x ys = refl
take-split (z ∷ xs) x ys = ap (λ l. z ∷ l) (take-split xs x ys)

take-before : (xs ys : List Received) → take (length xs) (xs ++ ys) ≡ xs
take-before [] ys = refl
take-before (z ∷ xs) ys = ap (λ l. z ∷ l) (take-before xs ys)

run-Voted :
    (fp : Double) (evs run : List Received) (node : RaftNode) (term c at : ℕ)
    → take at evs ≡ run
    → (raft_run fp run node).hard_state.current_term ≡ term
    → (raft_run fp run node).hard_state.voted_for ≡ c
    → is_candidate (raft_run fp run node).role ≡ false
    → term < 2 ^ 31
    → c < no_vote
    → Voted fp evs node term c
run-Voted fp evs run node term c at cut in_term vote calm small c_fits =
    let path = ap (λ l. raft_run fp l node) (sym cut) in
    let as_term = ap (λ (m : RaftNode). m.hard_state.current_term) (sym path) ∙ in_term in
    let as_vote = ap (λ (m : RaftNode). m.hard_state.voted_for) (sym path) ∙ vote in
    record {
      at = at;
      small = record {
        term = omega (arith, as_term, small);
        vote = omega (arith, as_vote, c_fits);
      };
      voted = record {
        given = ground (arith, as_vote, c_fits);
        no_candidate = ap (λ (m : RaftNode). is_candidate m.role) (sym path) ∙ calm;
      };
      in_term = as_term;
      vote = as_vote;
    }

-- A node that has sent its vote of the term to another node has voted for that one in its run.
pub SentVote-Voted :
    (fp : Double) (evs : List Received) (node : RaftNode) (term c : ℕ)
    → AllBytes fp evs
    → is_follower node.role ≡ true
    → node.hard_state.current_term < 2 ^ 32
    → node.config.id < no_vote
    → term < 2 ^ 31
    → c < no_vote
    → node.config.id ≢ c
    → SentVote fp evs node term c
    → Voted fp evs node term c
SentVote-Voted fp evs node term c bytes follows fits id_fits small c_fits other v =
    let run = v.before ++ v.ev ∷ [] in
    let at = suc (length v.before) in
    let first = raft_run fp v.before node in
    let last = raft_run fp run node in
    let cut : take at evs ≡ run = ap (take at) v.split ∙ take-split v.before v.ev v.later in
    let whole : AllBytes fp run = subst (AllBytes fp) cut (AllBytes-take fp at evs bytes) in
    let start : AllBytes fp v.before =
      subst (AllBytes fp)
        (ap (take (length v.before)) v.split ∙ take-before v.before (v.ev ∷ v.later))
        (AllBytes-take fp (length v.before) evs bytes) in
    let path : last ≡ raft_run fp (v.ev ∷ []) first =
      raft_run-append fp v.before (v.ev ∷ []) node in
    let progress = raft_run-Progress fp run node whole fits in
    let earlier = raft_run-Progress fp v.before node start fits in
    let id_first : first.config.id ≡ node.config.id = ap (λ k. k.id) earlier.same_config in
    let id_last : last.config.id ≡ node.config.id = ap (λ k. k.id) progress.same_config in
    let here = λ (m : RaftNode). m.io.sent in
    let sent : (raft_run fp (v.ev ∷ []) first).io.sent
        ≡ first.io.sent ++ request_vote_response c first.config.id term 1 ∷ [] =
      sym (ap here path)
      ∙ v.sent
      ∙ ap (λ i. first.io.sent ++ request_vote_response c i term 1 ∷ []) (sym id_first) in
    let in_range : (raft_run fp (v.ev ∷ []) first).hard_state.current_term < 2 ^ 32 =
      subst (λ (m : RaftNode). m.hard_state.current_term < 2 ^ 32) path
        (omega (arith, progress.term_fits, fits)) in
    let (in_term', vote') =
      run-Records fp term c (omega (arith, small)) v.ev first v.small sent in_range in
    let in_term : last.hard_state.current_term ≡ term =
      ap (λ (m : RaftNode). m.hard_state.current_term) path ∙ in_term' in
    let vote : last.hard_state.voted_for ≡ c =
      ap (λ (m : RaftNode). m.hard_state.voted_for) path ∙ vote' in
    let own =
      raft_run-VotesForItself fp run node whole (omega (arith, in_term, small)) fits id_fits
        (λ up. absurd (ground (arith, up, follows))) in
    let calm : is_candidate last.role ≡ false = elim (Bool-cases (is_candidate last.role)) [
      | inr calm ↦ calm
      | inl stands ↦ absurd (other (sym id_last ∙ sym (own (ground (arith, stands))) ∙ vote))
    ] in
    run-Voted fp evs run node term c at cut in_term vote calm small c_fits
