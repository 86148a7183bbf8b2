-- ===== src/Raft/Vote.antt =====
-- src/raft.c, the handlers of RequestVote and of its response.
pub mod Grant
use raft_research.Prelude.{
  ℕ, ◌+◌, ◌/◌, ◌<◌, ◌≡◌, Bool, true, false, not, ◌&&◌, ◌||◌, ltb, ◌==◌, if◌then◌else◌,
}
use raft_research.Prelude.Int.{ℤ, pos, negsuc, to_u32, ltb_ℤ}
use raft_research.Store.{HardState, get_term, get_vote, no_vote}
use raft_research.Rpc.Messages.{RequestVoteReq, RequestVoteRes}
use raft_research.Raft.Node.{RaftNode, is_candidate, term_word, log_is_up_to_date}
use raft_research.Raft.Timers.{set_election_timer}
use raft_research.Raft.Send.{send_request_vote_response}
use raft_research.Raft.Roles.{become_follower, become_leader}

-- The vote is free, or is the candidate's already; and the candidate's log is up to date.
unfoldable pub grants : RequestVoteReq → RaftNode → Bool
grants req node =
    let voted_for = to_u32 (get_vote node.hard_state) in
    let has_voted = not (voted_for == no_vote) in
    not (has_voted && not (voted_for == req.candidate_id))
    && log_is_up_to_date node.log req.last_log_idx req.last_log_term

abbrev pub with_vote : ℕ → RaftNode → RaftNode
with_vote id node = record node { hard_state = record node.hard_state { voted_for = id } }

-- The part after a newer term has been taken over.
unfoldable pub answer_vote : RequestVoteReq → ℕ → RaftNode → RaftNode
answer_vote req cur_term node =
    if ltb_ℤ (get_vote node.hard_state) (pos 0)
    then node
    else if grants req node
    then send_request_vote_response req.candidate_id cur_term 1
        (set_election_timer (with_vote req.candidate_id node))
    else send_request_vote_response req.candidate_id cur_term 0 node

unfoldable pub handle_request_vote_request : ℕ → RequestVoteReq → RaftNode → RaftNode
handle_request_vote_request src_id req node =
    let cur_term = to_u32 (get_term node.hard_state) in
    if ltb_ℤ (get_term node.hard_state) (pos 0)
    then node
    else if ltb req.term cur_term
    then send_request_vote_response req.candidate_id cur_term 0 node
    else if ltb cur_term req.term
    then answer_vote req req.term (become_follower req.term src_id node)
    else answer_vote req cur_term node

-- One more vote, and the leadership with a majority of them.
unfoldable pub count_vote : RaftNode → RaftNode
count_vote node =
    let counted = record node { votes_received = node.votes_received + 1 } in
    if ltb (node.config.num_nodes / 2) (node.votes_received + 1)
    then become_leader counted
    else counted

unfoldable pub handle_request_vote_response : ℕ → RequestVoteRes → RaftNode → RaftNode
handle_request_vote_response src_id resp node =
    let cur_term = term_word node in
    if not (is_candidate node.role)
    then node
    else if ltb cur_term resp.term
    then become_follower resp.term src_id node
    else if ltb resp.term cur_term
    then node
    else if resp.vote_granted == 0
    then node
    else count_vote node
