-- ===== src/Raft/Roles/Election.antt =====
-- src/raft.c: what a node does when it stands for election.
use raft_research.Store.Bounds.{log_length-natural, natural, word}
use raft_research.Prelude.{
  ℕ, ◌+◌, ◌-◌, ◌%◌, ◌<◌, ◌^◌, ◌≡◌, refl, List, ◌++◌, some, arith, length, get_elem?,
  get_elem?-append_right, ap, ◌∙◌,
}
use raft_research.Transport.{Pkt, uninit_pkt}
use raft_research.Rpc.{pack_request_vote_req}
use raft_research.Accrual.{telemetry_reset}
use raft_research.Raft.Node.{RaftNode, candidate, no_leader}
use raft_research.Raft.Timers.{set_election_timer, telemetry_log}
use raft_research.Raft.Send.{vote_request, to_others, broadcast_request_vote}
use raft_research.Raft.Send.Others.{other, get_elem?-to_others, length-to_others}
use raft_research.Raft.Roles.{start_election, become_candidate}

-- `b` is in the next term, has its own vote and no other, and has sent as many requests as there are
-- other nodes.
pub record Stands (a b : RaftNode) : Type 0 where
  pub term : b.hard_state.current_term ≡ a.hard_state.current_term + 1
  pub vote : b.hard_state.voted_for ≡ a.config.id
  pub votes : b.votes_received ≡ 1
  pub requests : List Pkt
  pub sent : b.io.sent ≡ a.io.sent ++ requests
  pub count : length requests ≡ a.config.num_nodes - 1

start_election-Stands :
    (node : RaftNode)
    → node.hard_state.current_term < 2 ^ 31
    → length node.log < 2 ^ 31
    → node.config.id < node.config.num_nodes
    → Stands node (start_election node)
unfolding start_election broadcast_request_vote set_election_timer
start_election-Stands node small few member =
    let t = natural node.hard_state.current_term small in
    let w = word node.hard_state.current_term small in
    let l = log_length-natural node.log few in
    let next : (node.hard_state.current_term + 1) % 2 ^ 32 ≡ node.hard_state.current_term + 1 =
      omega arith in
    record {
      term = rw (t, w) next;
      vote = rw t refl;
      votes = rw t refl;
      requests =
          to_others
            (λ i.
              (pack_request_vote_req uninit_pkt i node.config.id
                (vote_request (start_election node))).1)
            node.config.id node.config.num_nodes 0;
      sent = rw (t, l) refl;
      count = length-to_others _ node.config.id node.config.num_nodes 0 (omega arith) (omega arith);
    }

-- A node that becomes candidate is in the next term, has voted for itself and counts that vote alone,
-- and has sent as many packets as there are other nodes. The term and the length of the log are
-- below 2^31, and the node is one of the `num_nodes`.
pub become_candidate-Stands :
    (node : RaftNode)
    → node.hard_state.current_term < 2 ^ 31
    → length node.log < 2 ^ 31
    → node.config.id < node.config.num_nodes
    → Stands node (become_candidate node)
unfolding become_candidate telemetry_log
become_candidate-Stands node small few member =
    let stands =
      start_election-Stands
        (record node {
          role = candidate;
          leader_id = no_leader;
          votes_received = 0;
          heartbeat_telemetry = telemetry_reset node.heartbeat_telemetry;
        })
        small few member in
    record {
      term = stands.term;
      vote = stands.vote;
      votes = stands.votes;
      requests = stands.requests;
      sent = stands.sent;
      count = stands.count;
    }

asked :
    (a b : RaftNode) (k : ℕ)
    → b.io.sent
      ≡ a.io.sent
        ++ to_others
            (λ i. (pack_request_vote_req uninit_pkt i a.config.id (vote_request b)).1)
            a.config.id
            a.config.num_nodes
            0
    → a.config.id < a.config.num_nodes
    → k < a.config.num_nodes - 1
    → get_elem? b.io.sent (length a.io.sent + k)
      ≡ some (pack_request_vote_req uninit_pkt (other a.config.id k) a.config.id (vote_request b)).1
asked a b k sent member below =
    ap (λ (l : List Pkt). get_elem? l (length a.io.sent + k)) sent
    ∙ get_elem?-append_right a.io.sent _ k
    ∙ get_elem?-to_others _ a.config.id a.config.num_nodes k member below

start_election-sent :
    (node : RaftNode)
    → node.hard_state.current_term < 2 ^ 31
    → length node.log < 2 ^ 31
    → let b = start_election node in
      b.io.sent
      ≡ node.io.sent
        ++ to_others
            (λ i. (pack_request_vote_req uninit_pkt i node.config.id (vote_request b)).1)
            node.config.id
            node.config.num_nodes
            0
unfolding start_election broadcast_request_vote set_election_timer
start_election-sent node small few =
    rw (natural node.hard_state.current_term small, log_length-natural node.log few) refl

-- The packets that a node sends when it starts an election are, in the order of the nodes' numbers,
-- one vote request to each other node, with the new term and the end of the node's log. The term
-- and the length of the log are below 2^31, and the node is one of the `num_nodes`.
pub start_election-asks :
    (node : RaftNode) (k : ℕ)
    → node.hard_state.current_term < 2 ^ 31
    → length node.log < 2 ^ 31
    → node.config.id < node.config.num_nodes
    → k < node.config.num_nodes - 1
    → let b = start_election node in
      get_elem? b.io.sent (length node.io.sent + k)
      ≡ some
          (pack_request_vote_req uninit_pkt
            (other node.config.id k)
            node.config.id
            (vote_request b)).1
start_election-asks node k small few member below =
    asked node (start_election node) k (start_election-sent node small few) member below
