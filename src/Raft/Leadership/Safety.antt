-- ===== src/Raft/Leadership/Safety.antt =====
-- src/raft.c: the leaders of a cluster in one term, each node with its own run of the main loop.
use raft_research.Prelude.{
  ℕ, zero, suc, ◌*◌, ◌≤◌, ◌<◌, ◌^◌, ◌≡◌, ◌≢◌, refl, ap, sym, subst, ltb, ◌∙◌, List, Bool, true,
  false, arith, inl, inr, ◌==◌, if◌then◌else◌, Bool-cases, take,
}
use raft_research.Float.{Double}
use raft_research.Store.{no_vote}
use raft_research.Raft.Node.{RaftNode, is_leader, is_candidate, is_follower}
use raft_research.Raft.Dispatch.{Received, raft_run}
use raft_research.Raft.Progress.Loop.{AllBytes, raft_run-Progress}
use raft_research.Raft.Leadership.Quorum.{tally, Voted, AllBytes-take, majorities-agree}
use raft_research.Raft.Leadership.Elected.{votes_in, raft_run-elected}
use raft_research.Raft.Leadership.Sent.{SentVote, SentVote-Voted}
use raft_research.Raft.Leadership.Votes.{votes_from, votes_in-tally}
use raft_research.Raft.Leadership.Own.{raft_run-VotesForItself}

-- A node of a cluster of `n` before its run, in any term.
pub record Member (n i : ℕ) (node : RaftNode) : Type 0 where
  pub id : node.config.id ≡ i
  pub size : node.config.num_nodes ≡ n
  pub follows : is_follower node.role ≡ true
  pub term_fits : node.hard_state.current_term < 2 ^ 32

module _ (fp : Double) (n : ℕ) (nodes : ℕ → RaftNode) (evs : ℕ → List Received) where
  -- Node `c` after `at` turns of its run.
  abbrev pub after : ℕ → ℕ → RaftNode
  after c at = raft_run fp (take at (evs c)) (nodes c)

  -- The node is the leader of the term at a moment of its run, and of the votes of the term that it
  -- has received until then each has been sent by the node that it names as its source, which is another
  -- node of the cluster, and no node's has been received twice.
  pub record Leads (term c : ℕ) : Type 0 where
    pub within : c < n
    pub at : ℕ
    pub leads : is_leader (after c at).role ≡ true
    pub in_term : (after c at).hard_state.current_term ≡ term
    pub once : (i : ℕ) → votes_from i term (take at (evs c)) ≤ 1
    pub sent :
        (i : ℕ)
        → 0 < votes_from i term (take at (evs c))
        → (i < n) × (i ≢ c) × SentVote fp (evs i) (nodes i) term c

  -- The node is the leader of the term at a moment of its run, and the votes of the term that it has
  -- received until then came from other nodes that have voted for it.
  record Supported (term c : ℕ) : Type 0 where
    pub within : c < n
    pub at : ℕ
    pub leads : is_leader (after c at).role ≡ true
    pub in_term : (after c at).hard_state.current_term ≡ term
    pub others : ℕ → Bool
    pub not_itself : others c ≡ false
    pub voted : (i : ℕ) → others i ≡ true → Voted fp (evs i) (nodes i) term c
    pub counted : votes_in term (take at (evs c)) ≤ tally n others

abbrev with_itself : ℕ → (ℕ → Bool) → ℕ → Bool
with_itself c others i = if i == c then true else others i

tally-same : (n c : ℕ) (others : ℕ → Bool) → n ≤ c → tally n (with_itself c others) ≡ tally n others
tally-same zero c others h = refl
tally-same (suc n) c others h = ground (arith, tally-same n c others (omega arith), h)

tally-with_itself :
    (n c : ℕ) (others : ℕ → Bool)
    → c < n
    → others c ≡ false
    → tally n (with_itself c others) ≡ suc (tally n others)
tally-with_itself zero c others h out = absurd (omega arith)
tally-with_itself (suc n) c others h out = elim (Bool-cases (n == c)) [
  | inl last ↦
      let e : n ≡ c = ground (arith, last) in
      let out' : others n ≡ false = ap others e ∙ out in
      ground (arith, last, out', tally-same n c others (omega (arith, e)))
  | inr before ↦ ground (arith, before, tally-with_itself n c others, h, out)
]

leader-roles :
    (node : RaftNode)
    → is_leader node.role ≡ true
    → (is_candidate node.role ≡ false) × (is_follower node.role ≡ false)
leader-roles node l = ground (arith, l)

follower-roles :
    (node : RaftNode)
    → is_follower node.role ≡ true
    → (is_candidate node.role ≡ false) × (is_leader node.role ≡ false)
follower-roles node f = ground (arith, f)

positive : (v : ℕ) → ltb 0 v ≡ true → 0 < v
positive v h = ground (arith, h)

module _ (fp : Double) (n : ℕ) (nodes : ℕ → RaftNode) (evs : ℕ → List Received) where
  leader-Voted :
      (term c : ℕ)
      → term < 2 ^ 31
      → n < no_vote
      → AllBytes fp (evs c)
      → Member n c (nodes c)
      → Supported fp n nodes evs term c
      → Voted fp (evs c) (nodes c) term c
  leader-Voted term c small few bytes member leader =
      let node = after fp n nodes evs c leader.at in
      let (calm, _) = follower-roles (nodes c) member.follows in
      let before = AllBytes-take fp leader.at (evs c) bytes in
      let progress =
        raft_run-Progress fp (take leader.at (evs c)) (nodes c) before member.term_fits in
      let own =
        raft_run-VotesForItself fp (take leader.at (evs c)) (nodes c) before
          (omega (arith, leader.in_term, small)) member.term_fits
          (omega (arith, member.id, leader.within, few))
          (λ up. absurd (ground (arith, up, member.follows))) in
      let vote : node.hard_state.voted_for ≡ c =
        own (leader-roles node leader.leads).1 ∙ ap (λ k. k.id) progress.same_config ∙ member.id in
      record {
        at = leader.at;
        small = record {
          term = omega (arith, leader.in_term, small);
          vote = omega (arith, vote, leader.within, few);
        };
        voted = record {
          given = ground (arith, vote, leader.within, few);
          no_candidate = (leader-roles node leader.leads).0;
        };
        in_term = leader.in_term;
        vote = vote;
      }

  leader-majority :
      (term c : ℕ)
      → term < 2 ^ 31
      → AllBytes fp (evs c)
      → Member n c (nodes c)
      → (leader : Supported fp n nodes evs term c) → n < 2 * tally n (with_itself c leader.others)
  leader-majority term c small bytes member leader =
      let node = after fp n nodes evs c leader.at in
      let run = take leader.at (evs c) in
      let (calm, low) = follower-roles (nodes c) member.follows in
      let before = AllBytes-take fp leader.at (evs c) bytes in
      let progress = raft_run-Progress fp run (nodes c) before member.term_fits in
      let size : node.config.num_nodes ≡ n =
        ap (λ k. k.num_nodes) progress.same_config ∙ member.size in
      let elected =
        raft_run-elected fp run (nodes c) before (omega (arith, leader.in_term, small))
          member.term_fits calm low in
      let most = elected.leader leader.leads refl in
      let same : votes_in node.hard_state.current_term run ≡ votes_in term run =
        ap (λ t. votes_in t run) leader.in_term in
      omega (
        arith,
        most,
        size,
        same,
        leader.counted,
        tally-with_itself n c leader.others leader.within leader.not_itself,
      )

  with_itself-Voted :
      (term c : ℕ)
      → Voted fp (evs c) (nodes c) term c
      → (leader : Supported fp n nodes evs term c) → (i : ℕ) → with_itself c leader.others i ≡ true
      → Voted fp (evs i) (nodes i) term c
  with_itself-Voted term c own leader i picked = elim (Bool-cases (i == c)) [
    | inl same ↦
        let e : c ≡ i = ground (arith, same) in subst (λ k. Voted fp (evs k) (nodes k) term c) e own
    | inr other ↦ leader.voted i (ground (arith, picked, other))
  ]

  Leads-Supported :
      (term c : ℕ)
      → term < 2 ^ 31
      → n < no_vote
      → ((i : ℕ) → AllBytes fp (evs i))
      → ((i : ℕ) → i < n → Member n i (nodes i))
      → Leads fp n nodes evs term c
      → Supported fp n nodes evs term c
  Leads-Supported term c small few bytes member leader =
      let run = take leader.at (evs c) in
      record {
        within = leader.within;
        at = leader.at;
        leads = leader.leads;
        in_term = leader.in_term;
        others = λ i. ltb 0 (votes_from i term run);
        not_itself = elim (Bool-cases (ltb 0 (votes_from c term run))) [
          | inr none_from ↦ none_from
          | inl own ↦ absurd ((leader.sent c (positive (votes_from c term run) own)).1 refl)
        ];
        voted = λ i vote.
            let (lt, other, sent) = leader.sent i (positive (votes_from i term run) vote) in
            let node = member i lt in
            SentVote-Voted fp (evs i) (nodes i) term c (bytes i) node.follows node.term_fits
              (omega (arith, node.id, lt, few)) small (omega (arith, leader.within, few))
              (λ e. other (sym node.id ∙ e)) sent;
        counted = votes_in-tally n term run leader.once (λ i h. (leader.sent i h).0);
      }

  -- Election safety: in a cluster of nodes that start as followers, each with its own run of the main
  -- loop, whatever packets of bytes they receive and however their timers run, two nodes that are
  -- leaders in the same term, at whatever moments, are the same node. The network may lose, delay and
  -- repeat packets, and forge them, all but votes: each vote of the term that has reached one of the
  -- two leaders until that moment has been sent to it in a turn of its run by the node that it names as
  -- its source, another node of the cluster, and no node's vote of the term has reached it twice. (The
  -- code counts a vote that arrives twice two times.) The term is below 2^31, and so are the ids, and the
  -- term and the vote of a node before the turn in which it sends a vote.
  pub election_safety :
      (term a b : ℕ)
      → term < 2 ^ 31
      → n < no_vote
      → ((i : ℕ) → AllBytes fp (evs i))
      → ((i : ℕ) → i < n → Member n i (nodes i))
      → Leads fp n nodes evs term a
      → Leads fp n nodes evs term b
      → a ≡ b
  election_safety term a b small few bytes member leads_a leads_b =
      let by_a = Leads-Supported term a small few bytes member leads_a in
      let by_b = Leads-Supported term b small few bytes member leads_b in
      let in_a = member a leads_a.within in
      let in_b = member b leads_b.within in
      let own_a = leader-Voted term a small few (bytes a) in_a by_a in
      let own_b = leader-Voted term b small few (bytes b) in_b by_b in
      majorities-agree fp n evs nodes term a b (with_itself a by_a.others)
        (with_itself b by_b.others) bytes (with_itself-Voted term a own_a by_a)
        (with_itself-Voted term b own_b by_b) (leader-majority term a small (bytes a) in_a by_a)
        (leader-majority term b small (bytes b) in_b by_b)
