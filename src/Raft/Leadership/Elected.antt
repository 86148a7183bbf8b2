-- ===== src/Raft/Leadership/Elected.antt =====
-- src/raft.c: the votes that a leader has received in a run of the main loop.
use raft_research.Prelude.{
  ℕ, ◌+◌, ◌/◌, ◌≤◌, ◌<◌, ◌^◌, ◌≡◌, sym, ap, subst, ◌∙◌, inl, inr, List, [], ◌∷◌, true, false, ◌&&◌,
  arith, Bool-cases,
}
use raft_research.Float.{Double}
use raft_research.Raft.Node.{RaftNode, is_leader, is_candidate}
use raft_research.Raft.Dispatch.{Received, run_turn, raft_run, is_none}
use raft_research.Raft.Progress.Loop.{AllBytes, turn-Progress, raft_run-Progress}
use raft_research.Raft.Leadership.Turn.{vote_of, turn-Tallies}
use raft_research.Raft.Leadership.Count.{Tallies}

-- The votes of the term among what a node receives.
abbrev pub votes_in : ℕ → List Received → ℕ
votes_in term [] = 0
votes_in term (ev ∷ evs) = vote_of ev term + votes_in term evs

-- The votes counted for a term are among the `seen` votes received, besides a candidate's own.
pub record Backed (term seen : ℕ) (node : RaftNode) : Type 0 where
  pub candidate :
      is_candidate node.role ≡ true
      → node.hard_state.current_term ≡ term
      → node.votes_received ≤ 1 + seen
  pub leader :
      is_leader node.role ≡ true
      → node.hard_state.current_term ≡ term
      → node.config.num_nodes / 2 < 1 + seen

step-Backed :
    (term seen : ℕ) (granted : ℕ → ℕ) (a b : RaftNode)
    → b.config ≡ a.config
    → Tallies granted a b
    → Backed term seen a
    → Backed term (seen + granted term) b
step-Backed term seen granted a b config t before = record {
  candidate = λ c at. elim (t.candidate c) [
    | inr anew ↦ omega (arith, anew)
    | inl (was, same, votes) ↦
        let then_at : a.hard_state.current_term ≡ term = sym same ∙ at in
        omega (arith, before.candidate was then_at, votes, ap granted then_at)
  ];
  leader = λ l at.
      let (same, how) = t.leader l in
      let then_at : a.hard_state.current_term ≡ term = sym same ∙ at in
      let size : b.config.num_nodes ≡ a.config.num_nodes = ap (λ c. c.num_nodes) config in
      elim how [
        | inl led ↦ omega (arith, before.leader led then_at, size)
        | inr (was, most) ↦
            omega (arith, before.candidate was then_at, most, size, ap granted then_at)
      ];
}

more-Backed :
    (term seen more : ℕ) (node : RaftNode) → Backed term seen node → Backed term (seen + more) node
more-Backed term seen more node b = record {
  candidate = λ c at. omega (arith, b.candidate c at);
  leader = λ l at. omega (arith, b.leader l at);
}

run-Backed :
    (fp : Double) (evs : List Received) (node : RaftNode) (term seen : ℕ)
    → AllBytes fp evs
    → (raft_run fp evs node).hard_state.current_term < 2 ^ 31
    → node.hard_state.current_term < 2 ^ 32
    → Backed term seen node
    → Backed term (seen + votes_in term evs) (raft_run fp evs node)
unfolding raft_run
run-Backed fp [] node term seen bytes small fits b = more-Backed term seen 0 node b
run-Backed fp (ev ∷ evs) node term seen bytes small fits b =
    let more = vote_of ev term + votes_in term evs in
    elim (Bool-cases (node.running && is_none node.io.exit_status)) [
      | inr ends ↦ rw ends (more-Backed term seen more node b)
      | inl goes ↦
          let after = run_turn fp ev node in
          let end : (raft_run fp evs after).hard_state.current_term < 2 ^ 31 =
            ground (arith, goes, small) in
          let turn = turn-Progress fp ev node bytes.0 fits in
          let fits' : after.hard_state.current_term < 2 ^ 32 =
            omega (arith, turn.term_fits, fits) in
          let rest = raft_run-Progress fp evs after bytes.1 fits' in
          let now =
            step-Backed term seen (vote_of ev) node after turn.same_config
              (turn-Tallies fp ev node (omega (arith, turn.term_le, rest.term_le, end))) b in
          let e : seen + vote_of ev term + votes_in term evs ≡ seen + more = omega arith in
          rw goes (
            subst (λ k. Backed term k (raft_run fp evs after)) e
              (run-Backed fp evs after term (seen + vote_of ev term) bytes.1 end fits' now))
    ]

-- Whatever packets of bytes a node receives, and however its timers run: a node that starts as a
-- follower and is the leader at the end of a run has received, besides its own vote, votes of its
-- term that make it more than half of the nodes; a candidate has counted no more votes of its term
-- than it has received, and its own. The term is below 2^31 at the end of the run.
pub raft_run-elected :
    (fp : Double) (evs : List Received) (node : RaftNode)
    → AllBytes fp evs
    → (raft_run fp evs node).hard_state.current_term < 2 ^ 31
    → node.hard_state.current_term < 2 ^ 32
    → is_candidate node.role ≡ false
    → is_leader node.role ≡ false
    → let b = raft_run fp evs node in
      Backed b.hard_state.current_term (votes_in b.hard_state.current_term evs) b
raft_run-elected fp evs node bytes small fits calm follows =
    let term = (raft_run fp evs node).hard_state.current_term in
    let start : Backed term 0 node = record {
      candidate = λ c at. absurd (ground (arith, c, calm));
      leader = λ l at. absurd (ground (arith, l, follows));
    } in
    let e : 0 + votes_in term evs ≡ votes_in term evs = omega arith in
    subst (λ k. Backed term k (raft_run fp evs node)) e
      (run-Backed fp evs node term 0 bytes small fits start)
