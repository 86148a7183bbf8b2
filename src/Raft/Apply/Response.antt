-- ===== src/Raft/Apply/Response.antt =====
-- src/raft.c, `apply_to_state_machine`: the response to the client that waits for an entry.
use raft_research.Prelude.{
  ℕ, zero, suc, ◌≤◌, ◌<◌, ◌≡◌, refl, ap, ap₂, sym, ◌∙◌, arith, List, [], ◌∷◌, ◌++◌, true, ◌&&◌, ◌⊎◌,
  inl, inr, Bool-cases, length, take, drop,
}
use mathlib.Core.List.{append_assoc}
use raft_research.LogEntry.{LogEntry}
use raft_research.Transport.{Pkt, uninit_pkt}
use raft_research.Rpc.{pack_proc_res}
use raft_research.Raft.Node.{RaftNode, OutstandingReq, is_leader}
use raft_research.Raft.Apply.{waits_for, release_req, success_response, answer_client}
use raft_research.Raft.Apply.Answers.{Extends, Extends-refl, Extends-trans, answer_client-Extends}
use raft_research.Raft.Apply.Rounds.{answer_all}

-- The response of success to the client of the entry.
abbrev pub answer_pkt : LogEntry → RaftNode → Pkt
answer_pkt e node =
    (pack_proc_res uninit_pkt e.client_id node.config.id (success_response e node)).1

-- The packet is among those that `b` adds to `a`.
abbrev pub Sends : Pkt → List Pkt → List Pkt → Type 0
Sends p a b = (xs : List Pkt) × (ys : List Pkt) × (b ≡ a ++ (xs ++ p ∷ ys))

Sends-now : (p : Pkt) (a b c : List Pkt) → b ≡ a ++ p ∷ [] → Extends b c → Sends p a c
Sends-now p a b c now (ys, all, more) =
    ([], ys, more ∙ ap (λ l. l ++ ys) now ∙ append_assoc a (p ∷ []) ys)

Sends-later : (p : Pkt) (a b c : List Pkt) → Extends a b → Sends p b c → Sends p a c
Sends-later p a b c (qs, all, more) (xs, ys, sent) = (
  qs ++ xs,
  ys,
  sent
      ∙ ap (λ l. l ++ (xs ++ p ∷ ys)) more
      ∙ append_assoc a qs (xs ++ p ∷ ys)
      ∙ ap (λ l. a ++ l) (sym (append_assoc qs xs (p ∷ ys))),
)

answer_all-Extends :
    (es : List LogEntry) (node : RaftNode) → Extends node.io.sent (answer_all es node).io.sent
answer_all-Extends [] node = Extends-refl node.io.sent
answer_all-Extends (e ∷ es) node =
    Extends-trans node.io.sent (answer_client e node).io.sent
      (answer_all es (answer_client e node)).io.sent (answer_client-Extends e node)
      (answer_all-Extends es (answer_client e node))

answer_client-sent :
    (e : LogEntry) (node : RaftNode)
    → is_leader node.role ≡ true
    → (release_req e node.outstanding_reqs).0 ≡ true
    → (answer_client e node).io.sent ≡ node.io.sent ++ answer_pkt e node ∷ []
unfolding answer_client
answer_client-sent e node leads found = rw (leads, found) refl

waits_for-same :
    (e f : LogEntry) (r : OutstandingReq)
    → waits_for e r ≡ true
    → waits_for f r ≡ true
    → (f.client_id ≡ e.client_id) × (f.cmd_seqno ≡ e.cmd_seqno)
waits_for-same e f r we wf = ground arith

-- A request that waits for an entry still waits after another entry is applied, unless that is an
-- entry of the same request.
release_req-other :
    (e f : LogEntry) (rs : List OutstandingReq)
    → (release_req e rs).0 ≡ true
    → ((release_req e (release_req f rs).1).0 ≡ true)
      ⊎ (((release_req f rs).0 ≡ true) × (f.client_id ≡ e.client_id) × (f.cmd_seqno ≡ e.cmd_seqno))
unfolding release_req
release_req-other e f [] found = absurd cc
release_req-other e f (r ∷ rs) found =
    let rest = release_req-other e f rs in
    elim (Bool-cases (waits_for e r)) [
      | inl we ↦ elim (Bool-cases (waits_for f r)) [
        | inl wf ↦
            let (client, seqno) = waits_for-same e f r we wf in inr (rw wf refl, client, seqno)
        | inr nf ↦ inl (rw nf (rw we refl))
      ]
      | inr ne ↦
          let later : (release_req e rs).0 ≡ true = ground (arith, ne, found) in
          elim (Bool-cases (waits_for f r)) [
            | inl wf ↦ inl (ground (arith, wf, later))
            | inr nf ↦ elim (rest later) [
              | inl still ↦ inl (ground (arith, nf, ne, still))
              | inr (was, client, seqno) ↦ inr (rw nf was, client, seqno)
            ]
          ]
    ]

answer_client-waits :
    (e f : LogEntry) (node : RaftNode)
    → (release_req e node.outstanding_reqs).0 ≡ true
    → (release_req e (release_req f node.outstanding_reqs).1).0 ≡ true
    → (release_req e (answer_client f node).outstanding_reqs).0 ≡ true
unfolding answer_client
answer_client-waits e f node before after =
    elim (Bool-cases (is_leader node.role && (release_req f node.outstanding_reqs).0)) [
      | inl answered ↦ rw answered after
      | inr silent ↦ rw silent before
    ]

answer_client-leads :
    (f : LogEntry) (node : RaftNode)
    → is_leader node.role ≡ true
    → is_leader (answer_client f node).role ≡ true
unfolding answer_client
answer_client-leads f node leads = ground arith

answer_pkt-answer_client :
    (e f : LogEntry) (node : RaftNode) → answer_pkt e (answer_client f node) ≡ answer_pkt e node
unfolding answer_client
answer_pkt-answer_client e f node =
    elim (Bool-cases (is_leader node.role && (release_req f node.outstanding_reqs).0)) [
      | inl answered ↦ rw answered refl
      | inr silent ↦ rw silent refl
    ]

answer_pkt_same :
    (e f : LogEntry) (node : RaftNode)
    → f.client_id ≡ e.client_id
    → f.cmd_seqno ≡ e.cmd_seqno
    → answer_pkt f node ≡ answer_pkt e node
answer_pkt_same e f node client seqno =
    ap₂ (λ (c s : ℕ). answer_pkt (record { term = 0; client_id = c; cmd_seqno = s; cmd = 0 }) node)
      client seqno

-- A leader that applies an entry answers the client whose request waits for it.
pub answer_all-Sends :
    (es : List LogEntry) (e : LogEntry) (later : List LogEntry) (node : RaftNode) (p : Pkt)
    → is_leader node.role ≡ true
    → (release_req e node.outstanding_reqs).0 ≡ true
    → answer_pkt e node ≡ p
    → Sends p node.io.sent (answer_all (es ++ e ∷ later) node).io.sent
answer_all-Sends [] e later node p leads waits same =
    let one = answer_client e node in
    Sends-now p node.io.sent one.io.sent (answer_all later one).io.sent
      (answer_client-sent e node leads waits ∙ ap (λ q. node.io.sent ++ q ∷ []) same)
      (answer_all-Extends later one)
answer_all-Sends (f ∷ es) e later node p leads waits same =
    let one = answer_client f node in
    elim (release_req-other e f node.outstanding_reqs waits) [
      | inl still ↦
          Sends-later p node.io.sent one.io.sent (answer_all (es ++ e ∷ later) one).io.sent
            (answer_client-Extends f node)
            (answer_all-Sends es e later one p (answer_client-leads f node leads)
              (answer_client-waits e f node waits still) (answer_pkt-answer_client e f node ∙ same))
      | inr (found, client, seqno) ↦
          Sends-now p node.io.sent one.io.sent (answer_all (es ++ e ∷ later) one).io.sent
            (answer_client-sent f node leads found
              ∙ ap (λ q. node.io.sent ++ q ∷ []) (answer_pkt_same e f node client seqno ∙ same))
            (answer_all-Extends (es ++ e ∷ later) one)
    ]

-- An entry behind those applied and below the commit index is among those to apply.
pub drop-take_middle :
    (xs : List LogEntry) (y : LogEntry) (zs : List LogEntry) (a k : ℕ)
    → a ≤ length xs
    → length xs < k
    → (before : List LogEntry) × (later : List LogEntry) × (drop a (take k (xs ++ y ∷ zs))
        ≡ before ++ y ∷ later)
drop-take_middle [] y zs zero zero h l = absurd (omega arith)
drop-take_middle [] y zs zero (suc k) h l = ([], take k zs, refl)
drop-take_middle [] y zs (suc a) k h l = absurd (omega arith)
drop-take_middle (x ∷ xs) y zs a zero h l = absurd (omega arith)
drop-take_middle (x ∷ xs) y zs zero (suc k) h l =
    let (before, later, e) = drop-take_middle xs y zs 0 k (omega arith) (omega arith) in
    (x ∷ before, later, ap (λ r. x ∷ r) e)
drop-take_middle (x ∷ xs) y zs (suc a) (suc k) h l =
    drop-take_middle xs y zs a k (omega arith) (omega arith)
