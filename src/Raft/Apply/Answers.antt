-- ===== src/Raft/Apply/Answers.antt =====
-- src/raft.c, `apply_to_state_machine`: the packets that it sends.
use raft_research.Prelude.{
  ℕ, zero, suc, ◌≡◌, refl, sym, ◌∙◌, List, [], ◌∷◌, ◌++◌, Option, none, some, ◌&&◌, Bool-cases, inl,
  inr,
}
use mathlib.Core.List.{append-nil, append_assoc}
use raft_research.Prelude.Int.{ltb_ℤ}
use raft_research.LogEntry.{LogEntry}
use raft_research.Transport.{Pkt}
use raft_research.Rpc.Messages.{rpc_resp_proc}
use raft_research.Raft.Node.{RaftNode, is_leader}
use raft_research.Raft.Apply.{
  release_req, answer_client, apply_entry, apply_one, apply_rounds, apply_to_state_machine,
}

-- Responses to clients.
abbrev pub AllResponses : List Pkt → Type 0
AllResponses [] = Unit {0}
AllResponses (p ∷ ps) = (p.header.code ≡ rpc_resp_proc) × AllResponses ps

append-AllResponses :
    (ps qs : List Pkt) → AllResponses ps → AllResponses qs → AllResponses (ps ++ qs)
append-AllResponses [] qs a b = b
append-AllResponses (p ∷ ps) qs (now, a) b = (now, append-AllResponses ps qs a b)

-- `b` has more packets than `a`, at its end, which are responses to clients.
abbrev pub Extends : List Pkt → List Pkt → Type 0
Extends a b = (ps : List Pkt) × AllResponses ps × (b ≡ a ++ ps)

pub Extends-refl : (a : List Pkt) → Extends a a
Extends-refl a = ([], tt, sym (append-nil a))

pub Extends-trans : (a b c : List Pkt) → Extends a b → Extends b c → Extends a c
Extends-trans a b c (ps, all, p) (qs, all2, q) =
    (ps ++ qs, append-AllResponses ps qs all all2, q ∙ rw p (append_assoc a ps qs))

pub answer_client-Extends :
    (e : LogEntry) (node : RaftNode) → Extends node.io.sent (answer_client e node).io.sent
unfolding answer_client raft_research.Rpc.pack_proc_res
answer_client-Extends e node =
    elim (Bool-cases (is_leader node.role && (release_req e node.outstanding_reqs).0)) [
      | inl answered ↦ rw answered (_, (refl, tt), refl)
      | inr silent ↦ rw silent (Extends-refl node.io.sent)
    ]

apply_entry-Extends :
    (e : Option LogEntry) (node : RaftNode) → Extends node.io.sent (apply_entry e node).io.sent
unfolding apply_entry
apply_entry-Extends none node = Extends-refl node.io.sent
apply_entry-Extends (some e) node = answer_client-Extends e node

apply_rounds-Extends :
    (n : ℕ) (node : RaftNode) → Extends node.io.sent (apply_rounds n node).io.sent
unfolding apply_rounds apply_one
apply_rounds-Extends zero node = Extends-refl node.io.sent
apply_rounds-Extends (suc n) node = elim (Bool-cases (ltb_ℤ node.last_applied node.commit_index)) [
  | inr done ↦ rw done (Extends-refl node.io.sent)
  | inl more ↦ rw more (
      Extends-trans node.io.sent (apply_one node).io.sent (apply_rounds n (apply_one node)).io.sent
        (apply_entry-Extends _ _) (apply_rounds-Extends n (apply_one node)))
]

pub apply_to_state_machine-Extends :
    (node : RaftNode) → Extends node.io.sent (apply_to_state_machine node).io.sent
unfolding apply_to_state_machine
apply_to_state_machine-Extends node = apply_rounds-Extends _ node
