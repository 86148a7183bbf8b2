-- ===== src/Raft/Vote/Grant.antt =====
-- src/raft.c, the handler of RequestVote: votes and responses.
use raft_research.Store.Bounds.{natural, word}
use raft_research.Prelude.{
  ℕ, ◌<◌, ◌^◌, ◌≡◌, refl, ◌∙◌, ◌⊎◌, inl, inr, [], ◌∷◌, ◌++◌, true, false, not, arith, ltb, ◌==◌,
  Bool-cases,
}
use raft_research.Store.{HardState, no_vote}
use raft_research.Rpc.Messages.{RequestVoteReq}
use raft_research.Raft.Node.{RaftNode, log_is_up_to_date}
use raft_research.Raft.Timers.{set_election_timer, set_fault_detect_timer, telemetry_log}
use raft_research.Raft.Send.{request_vote_response}
use raft_research.Raft.Roles.{become_follower}
use raft_research.Raft.Vote.{grants, answer_vote, handle_request_vote_request}

-- The two fields are in the range where an `int` result is not an error.
pub record IsNatural (s : HardState) : Type 0 where
  pub term : s.current_term < 2 ^ 31
  pub vote : s.voted_for < 2 ^ 31

-- To what was sent before, `b` adds the response with its term.
abbrev pub Answers : RequestVoteReq → RaftNode → RaftNode → ℕ → Type 0
Answers req a b vote_granted =
    b.io.sent
    ≡ a.io.sent
      ++ request_vote_response req.candidate_id a.config.id b.hard_state.current_term vote_granted
        ∷ []

-- A granted vote is for the term and the candidate of the request, is recorded, and goes to a log
-- that is up to date with the node's own.
pub record Grants (req : RequestVoteReq) (a b : RaftNode) : Type 0 where
  pub sent : Answers req a b 1
  pub term : b.hard_state.current_term ≡ req.term
  pub vote : b.hard_state.voted_for ≡ req.candidate_id
  pub log : log_is_up_to_date a.log req.last_log_idx req.last_log_term ≡ true

grants-log :
    (req : RequestVoteReq) (node : RaftNode)
    → grants req node ≡ true
    → log_is_up_to_date node.log req.last_log_idx req.last_log_term ≡ true
unfolding grants
grants-log req node h = grind arith

answer_vote-Grants :
    (req : RequestVoteReq) (cur_term : ℕ) (node : RaftNode)
    → node.hard_state.voted_for < 2 ^ 31
    → node.hard_state.current_term ≡ cur_term
    → cur_term ≡ req.term
    → Answers req node (answer_vote req cur_term node) 0
      ⊎ Grants req node (answer_vote req cur_term node)
unfolding answer_vote set_election_timer
answer_vote-Grants req cur_term node small same fits = elim (Bool-cases (grants req node)) [
  | inl yay ↦
      let f = natural node.hard_state.voted_for small in
      inr record {
        sent = rw (f, yay, same) refl;
        term = rw (f, yay) (same ∙ fits);
        vote = rw (f, yay) refl;
        log = grants-log req node yay;
      }
  | inr nay ↦ let f = natural node.hard_state.voted_for small in inl (rw (f, nay, same) refl)
]

answer_vote-term :
    (req : RequestVoteReq) (cur_term : ℕ) (node : RaftNode)
    → (answer_vote req cur_term node).hard_state.current_term ≡ node.hard_state.current_term
unfolding answer_vote set_election_timer
answer_vote-term req cur_term node = ground arith

grants-candidate :
    (req : RequestVoteReq) (node : RaftNode)
    → node.hard_state.voted_for < 2 ^ 31
    → not (node.hard_state.voted_for == no_vote) ≡ true
    → grants req node ≡ true
    → req.candidate_id ≡ node.hard_state.voted_for
unfolding grants
grants-candidate req node small voted yay =
    let w = word node.hard_state.voted_for small in ground (arith, w)

answer_vote-vote :
    (req : RequestVoteReq) (cur_term : ℕ) (node : RaftNode)
    → node.hard_state.voted_for < 2 ^ 31
    → not (node.hard_state.voted_for == no_vote) ≡ true
    → (answer_vote req cur_term node).hard_state.voted_for ≡ node.hard_state.voted_for
unfolding answer_vote set_election_timer
answer_vote-vote req cur_term node small voted = elim (Bool-cases (grants req node)) [
  | inl yay ↦
      rw (natural node.hard_state.voted_for small, yay) (grants-candidate req node small voted yay)
  | inr nay ↦ rw (natural node.hard_state.voted_for small, nay) refl
]

newer_term :
    (src_id : ℕ) (req : RequestVoteReq) (node : RaftNode)
    → IsNatural node.hard_state
    → ltb node.hard_state.current_term req.term ≡ true
    → (handle_request_vote_request src_id req node).hard_state.current_term ≡ req.term
unfolding handle_request_vote_request become_follower set_fault_detect_timer telemetry_log
newer_term src_id req node small newer =
    let not_old : ltb req.term node.hard_state.current_term ≡ false = ground arith in
    rw
      (
        natural node.hard_state.current_term small.term,
        word node.hard_state.current_term small.term,
        not_old,
        newer,
      )
      (answer_vote-term req req.term (become_follower req.term src_id node))

-- A node that has voted, and is in the same term after a vote request, still has that vote,
-- whatever the request says. The two persistent fields are below 2^31.
pub vote_is_final :
    (src_id : ℕ) (req : RequestVoteReq) (node : RaftNode)
    → IsNatural node.hard_state
    → not (node.hard_state.voted_for == no_vote) ≡ true
    → (handle_request_vote_request src_id req node).hard_state.current_term
      ≡ node.hard_state.current_term
    → (handle_request_vote_request src_id req node).hard_state.voted_for ≡ node.hard_state.voted_for
unfolding handle_request_vote_request become_follower set_fault_detect_timer telemetry_log
vote_is_final src_id req node small voted same =
    elim (Bool-cases (ltb req.term node.hard_state.current_term)) [
      | inl old ↦
          rw
            (
              natural node.hard_state.current_term small.term,
              word node.hard_state.current_term small.term,
              old,
            )
            refl
      | inr not_old ↦ elim (Bool-cases (ltb node.hard_state.current_term req.term)) [
        | inl newer ↦ ground (arith, newer_term src_id req node small newer, same, newer)
        | inr current ↦
            rw
              (
                natural node.hard_state.current_term small.term,
                word node.hard_state.current_term small.term,
                not_old,
                current,
              )
              (answer_vote-vote req node.hard_state.current_term node small.vote voted)
      ]
    ]

newer_reply :
    (src_id : ℕ) (req : RequestVoteReq) (node : RaftNode)
    → let b = answer_vote req req.term (become_follower req.term src_id node) in
      Answers req node b 0 ⊎ Grants req node b
unfolding become_follower set_fault_detect_timer telemetry_log
newer_reply src_id req node =
    elim (answer_vote-Grants req req.term (become_follower req.term src_id node) (omega arith) refl
      refl) [
        | inl refused ↦ inl refused
        | inr granted ↦ inr record {
          sent = granted.sent;
          term = granted.term;
          vote = granted.vote;
          log = granted.log;
        }
      ]

-- A vote request is answered by one response, with the term of the node after it: it refuses the
-- vote; or it grants it, and then the term is the candidate's, the vote for the candidate is
-- recorded, and the candidate's log is at least as up to date as the node's. The two persistent
-- fields are below 2^31.
pub handle_request_vote_request-Grants :
    (src_id : ℕ) (req : RequestVoteReq) (node : RaftNode)
    → IsNatural node.hard_state
    → let b = handle_request_vote_request src_id req node in
      Answers req node b 0 ⊎ Grants req node b
unfolding handle_request_vote_request
handle_request_vote_request-Grants src_id req node small =
    elim (Bool-cases (ltb req.term node.hard_state.current_term)) [
      | inl old ↦
          rw
            (
              natural node.hard_state.current_term small.term,
              word node.hard_state.current_term small.term,
              old,
            )
            (inl refl)
      | inr not_old ↦ elim (Bool-cases (ltb node.hard_state.current_term req.term)) [
        | inl newer ↦
            rw
              (
                natural node.hard_state.current_term small.term,
                word node.hard_state.current_term small.term,
                not_old,
                newer,
              )
              (newer_reply src_id req node)
        | inr current ↦
            rw
              (
                natural node.hard_state.current_term small.term,
                word node.hard_state.current_term small.term,
                not_old,
                current,
              )
              (answer_vote-Grants req node.hard_state.current_term node small.vote refl
                (ground arith))
      ]
    ]
