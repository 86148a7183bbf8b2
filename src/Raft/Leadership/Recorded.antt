-- ===== src/Raft/Leadership/Recorded.antt =====
-- src/raft.c: the turn in which a node sends its vote records it.
use raft_research.Prelude.{
  ℕ, ◌<◌, ◌^◌, ◌≡◌, ◌≢◌, refl, ap, sym, ◌∙◌, List, [], ◌∷◌, ◌++◌, Option, none, some, ◌&&◌, arith,
  inl, inr, ◌==◌, Bool-cases, drop, get_or,
}
use raft_research.Float.{Double}
use raft_research.Io.{get_usec}
use raft_research.Transport.{Pkt, uninit_pkt}
use raft_research.Rpc.Messages.{RequestVoteReq, RequestVoteRes, rpc_call_req_vote}
use raft_research.Rpc.{pack_request_vote_res, unpack_request_vote_req, unpack_request_vote_res}
use raft_research.Rpc.RoundTrip.{request_vote_res_round_trip}
use raft_research.Raft.Node.{RaftNode}
use raft_research.Raft.Send.{request_vote_response}
use raft_research.Raft.Vote.{handle_request_vote_request}
use raft_research.Raft.Vote.Grant.{IsNatural, handle_request_vote_request-Grants}
use raft_research.Raft.Dispatch.{
  Received, packet, timed_out, failed, on_success-cases, raft_handle_rpc, handle_received, run_turn,
  raft_run, is_none,
}
use raft_research.Raft.Leadership.Ballots.{ballots, ballots-append}
use raft_research.Raft.Leadership.Silent.{AsksNot, turn-SendsNone}

same_last : (xs : List Pkt) (p q : Pkt) → xs ++ p ∷ [] ≡ xs ++ q ∷ [] → p ≡ q
same_last [] p q e = ap (λ l. get_or l 0 p) e
same_last (x ∷ xs) p q e = same_last xs p q (ap (drop 1) e)

one_more : (xs : List Pkt) (p : Pkt) → xs ≢ xs ++ p ∷ []
one_more [] p e = absurd cc
one_more (x ∷ xs) p e = one_more xs p (ap (drop 1) e)

abbrev term_in : Option RequestVoteRes → ℕ
term_in none = 0
term_in (some m) = m.term

abbrev grant_in : Option RequestVoteRes → ℕ
grant_in none = 0
grant_in (some m) = m.vote_granted

-- Two responses with the same bytes say the same.
same_response :
    (dst src t g dst' src' t' g' : ℕ)
    → t < 2 ^ 32
    → t' < 2 ^ 32
    → g < 2
    → g' < 2
    → request_vote_response dst src t g ≡ request_vote_response dst' src' t' g'
    → (dst ≡ dst') × (t ≡ t') × (g ≡ g')
unfolding pack_request_vote_res
same_response dst src t g dst' src' t' g' ft ft' fg fg' e =
    let one =
      request_vote_res_round_trip uninit_pkt dst src (record { term = t; vote_granted = g })
        (record { term_fits = ft; granted_fits = omega (arith, fg) }) in
    let two =
      request_vote_res_round_trip uninit_pkt dst' src' (record { term = t'; vote_granted = g' })
        (record { term_fits = ft'; granted_fits = omega (arith, fg') }) in
    let same = sym one.1 ∙ ap unpack_request_vote_res e ∙ two.1 in
    (ap (λ p. p.header.dst) e, ap term_in same, ap grant_in same)

-- Where the only packet added is a vote of the term for `c`, the node has recorded it.
abbrev Records : ℕ → ℕ → ℕ → RaftNode → RaftNode → Type 0
Records id term c a b =
    b.io.sent ≡ a.io.sent ++ request_vote_response c id term 1 ∷ []
    → b.hard_state.current_term < 2 ^ 32
    → (b.hard_state.current_term ≡ term) × (b.hard_state.voted_for ≡ c)

unchanged : (id term c : ℕ) (a b : RaftNode) → b.io.sent ≡ a.io.sent → Records id term c a b
unchanged id term c a b same sent fits =
    absurd (one_more a.io.sent (request_vote_response c id term 1) (sym same ∙ sent))

request-Records :
    (src_id term c : ℕ) (req : RequestVoteReq) (node : RaftNode)
    → IsNatural node.hard_state
    → term < 2 ^ 32
    → Records node.config.id term c node (handle_request_vote_request src_id req node)
request-Records src_id term c req node small term_fits sent fits =
    let b = handle_request_vote_request src_id req node in
    let id = node.config.id in
    let t = b.hard_state.current_term in
    elim (handle_request_vote_request-Grants src_id req node small) [
      | inl refused ↦
          let same =
            same_response req.candidate_id id t 0 c id term 1 fits term_fits (omega arith)
              (omega arith)
              (same_last node.io.sent (request_vote_response req.candidate_id id t 0)
                (request_vote_response c id term 1) (sym refused ∙ sent)) in
          absurd (omega (arith, same.2))
      | inr granted ↦
          let same =
            same_response req.candidate_id id t 1 c id term 1 fits term_fits (omega arith)
              (omega arith)
              (same_last node.io.sent (request_vote_response req.candidate_id id t 1)
                (request_vote_response c id term 1) (sym granted.sent ∙ sent)) in
          (same.1, granted.vote ∙ same.0)
    ]

module _ (fp : Double) (term c : ℕ) (term_fits : term < 2 ^ 32) where
  turn-Records :
      (pkt : Pkt) (node : RaftNode)
      → pkt.header.code ≡ rpc_call_req_vote
      → IsNatural node.hard_state
      → Records node.config.id term c node (run_turn fp (packet pkt) node)
  unfolding run_turn handle_received raft_handle_rpc unpack_request_vote_req
  turn-Records pkt node asked small =
      let looked = record node { io = (get_usec node.io).1 } in
      let handled =
        on_success-cases (Records node.config.id term c node) (unpack_request_vote_req pkt)
          (λ m. handle_request_vote_request pkt.header.src m looked) looked
          (unchanged node.config.id term c node looked refl)
          (λ m e. request-Records pkt.header.src term c m looked small term_fits) in
      rw asked (elim (Bool-cases (pkt.header.dst == node.config.id)) [
        | inl mine ↦ rw mine handled
        | inr other ↦ rw other (unchanged node.config.id term c node looked refl)
      ])

  -- A turn without a vote request adds no vote.
  silent-Records :
      (ev : Received) (node : RaftNode)
      → AsksNot fp ev
      → Records node.config.id term c node (run_turn fp ev node)
  unfolding pack_request_vote_res
  silent-Records ev node other sent fits =
      let silent = turn-SendsNone fp ev node other in
      let vote = request_vote_response c node.config.id term 1 in
      absurd (omega (arith, silent, ap ballots sent, ballots-append node.io.sent (vote ∷ [])))

  any_turn-Records :
      (ev : Received) (node : RaftNode)
      → IsNatural node.hard_state
      → Records node.config.id term c node (run_turn fp ev node)
  any_turn-Records timed_out node small = silent-Records timed_out node tt
  any_turn-Records failed node small = silent-Records failed node tt
  any_turn-Records (packet pkt) node small =
      elim (Bool-cases (pkt.header.code == rpc_call_req_vote)) [
        | inl asks ↦ turn-Records pkt node (ground (arith, asks)) small
        | inr other ↦ silent-Records (packet pkt) node other
      ]

  pub run-Records :
      (ev : Received) (node : RaftNode)
      → IsNatural node.hard_state
      → Records node.config.id term c node (raft_run fp (ev ∷ []) node)
  unfolding raft_run
  run-Records ev node small = elim (Bool-cases (node.running && is_none node.io.exit_status)) [
    | inl goes ↦ rw goes (any_turn-Records ev node small)
    | inr ends ↦ rw ends (unchanged node.config.id term c node node refl)
  ]
