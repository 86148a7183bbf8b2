-- ===== src/Tests/Vote.antt =====
-- Examples for votes and elections.
use raft_research.Prelude.{◌≡◌, ◌⊎◌, refl, [], ◌∷◌, false, inr, arith}
use raft_research.Memory.{read_u32_be, write_u32_be}
use raft_research.Transport.{Pkt, uninit_pkt}
use raft_research.Rpc.Messages.{RequestVoteReq}
use raft_research.Rpc.{pack_request_vote_req, unpack_request_vote_req}
use raft_research.Raft.Node.{raft_get_log_term, log_is_up_to_date, is_candidate}
use raft_research.Raft.Node.UpToDate.{at_least, last_term, log_is_up_to_date-at_least}
use raft_research.Raft.Vote.{grants, answer_vote, handle_request_vote_request}
use raft_research.Raft.Vote.Grant.{IsNatural, Answers, Grants, handle_request_vote_request-Grants}
use raft_research.Raft.Dispatch.{raft_handle_rpc, packet, handle_received, run_turn, raft_run}
use raft_research.Rpc.Bounds.{IsBytes}
use raft_research.Raft.Leadership.Run.{HasVoted, raft_run-vote}
use raft_research.Tests.Data.{whole, a_follower, a_voter, a_candidate, entry}

-- Node 2 asks for a vote in term 2, with a log as long as the voter's.
abbrev ask : RequestVoteReq
ask = record { term = 2; candidate_id = 2; last_log_idx = 2; last_log_term = 2 }

follower-IsNatural : IsNatural a_follower.hard_state
follower-IsNatural = record { term = omega arith; vote = omega arith }

voter-IsNatural : IsNatural a_voter.hard_state
voter-IsNatural = record { term = omega arith; vote = omega arith }

candidate-IsNatural : IsNatural a_candidate.hard_state
candidate-IsNatural = record { term = omega arith; vote = omega arith }

handle_request_vote_request-Grants_example :
    let b = handle_request_vote_request 2 ask a_follower in
    Answers ask a_follower b 0 ⊎ Grants ask a_follower b
handle_request_vote_request-Grants_example =
    handle_request_vote_request-Grants 2 ask a_follower follower-IsNatural

abbrev asked : Pkt
asked = (pack_request_vote_req uninit_pkt 0 2 ask).1

log_is_up_to_date-at_least_example :
    log_is_up_to_date (entry 1 10 ∷ entry 2 11 ∷ []) 2 1
    ≡ at_least (entry 1 10 ∷ entry 2 11 ∷ []) (entry 1 10 ∷ entry 1 11 ∷ entry 1 12 ∷ [])
unfolding raft_get_log_term last_term
log_is_up_to_date-at_least_example =
    log_is_up_to_date-at_least (entry 1 10 ∷ entry 2 11 ∷ [])
      (entry 1 10 ∷ entry 1 11 ∷ entry 1 12 ∷ []) (omega arith) (omega arith) (inr (omega arith))
      (inr (omega arith))

voter-HasVoted : HasVoted a_voter
voter-HasVoted = record { given = refl; no_candidate = refl }

asked-IsBytes : IsBytes asked.payload
unfolding pack_request_vote_req write_u32_be
asked-IsBytes p = ground arith

raft_run-vote_example :
    let b = raft_run whole (packet asked ∷ packet asked ∷ []) a_voter in
    (is_candidate b.role ≡ false) × (b.hard_state.voted_for ≡ 1)
unfolding raft_run run_turn handle_received raft_handle_rpc pack_request_vote_req
    unpack_request_vote_req handle_request_vote_request answer_vote grants read_u32_be write_u32_be
raft_run-vote_example =
    raft_run-vote whole (packet asked ∷ packet asked ∷ []) a_voter
      (asked-IsBytes, (asked-IsBytes, tt)) voter-IsNatural voter-HasVoted refl
