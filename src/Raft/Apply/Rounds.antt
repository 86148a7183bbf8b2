-- ===== src/Raft/Apply/Rounds.antt =====
-- src/raft.c, `apply_to_state_machine`: which entries it applies.
use raft_research.Prelude.{
  ℕ, zero, suc, ◌+◌, ◌≤◌, ◌<◌, ◌≡◌, refl, ap, sym, ◌∙◌, arith, if◌then◌else◌, List, [], ◌∷◌, Option,
  none, some, Bool, false, ◌&&◌, inl, inr, Bool-cases, ltb, get_elem?, take, drop,
}
use raft_research.Prelude.Int.{ℤ, pos, ◌+ℤ◌, distance, ltb_ℤ}
use raft_research.LogEntry.{LogEntry}
use raft_research.Store.{Log, log_read}
use raft_research.Raft.Node.{RaftNode, is_leader}
use raft_research.Raft.Apply.{
  release_req, answer_client, apply_entry, apply_one, apply_rounds, apply_to_state_machine,
}

-- The entries applied, one after the other.
abbrev pub answer_all : List LogEntry → RaftNode → RaftNode
answer_all [] node = node
answer_all (e ∷ es) node = answer_all es (answer_client e node)

-- The node after the indices are moved.
abbrev pub moved_to : ℤ → RaftNode → RaftNode
moved_to n node = record node { last_applied = n }

answer_client-moved_to :
    (e : LogEntry) (n : ℤ) (node : RaftNode)
    → answer_client e (moved_to n node) ≡ moved_to n (answer_client e node)
unfolding answer_client
answer_client-moved_to e n node =
    elim (Bool-cases (is_leader node.role && (release_req e node.outstanding_reqs).0)) [
      | inl answered ↦ rw answered refl
      | inr silent ↦ rw silent refl
    ]

module _ {ℓ} {A : Type ℓ} where
  drop-take :
      (xs : List A) (a b : ℕ) (x : A)
      → a < b
      → get_elem? xs a ≡ some x
      → drop a (take b xs) ≡ x ∷ drop (suc a) (take b xs)
  drop-take [] a b x h e = absurd cc
  drop-take (y ∷ xs) a zero x h e = absurd (omega arith)
  drop-take (y ∷ xs) zero (suc b) x h e = ap (λ z. z ∷ take b xs) cc
  drop-take (y ∷ xs) (suc a) (suc b) x h e = drop-take xs a b x (omega arith) e

  -- Nothing is left to apply from the commit index on.
  drop-take_done : (xs : List A) (a b : ℕ) → b ≤ a → drop a (take b xs) ≡ []
  drop-take_done xs zero zero h = refl
  drop-take_done xs (suc a) zero h = refl
  drop-take_done xs zero (suc b) h = absurd (omega arith)
  drop-take_done [] (suc a) (suc b) h = refl
  drop-take_done (x ∷ xs) (suc a) (suc b) h = drop-take_done xs a b (omega arith)

  -- Nor from the end of the log on.
  drop-take_end : (xs : List A) (a b : ℕ) → get_elem? xs a ≡ none → drop a (take b xs) ≡ []
  drop-take_end [] zero zero e = refl
  drop-take_end [] zero (suc b) e = refl
  drop-take_end [] (suc a) zero e = refl
  drop-take_end [] (suc a) (suc b) e = refl
  drop-take_end (x ∷ xs) zero b e = absurd cc
  drop-take_end (x ∷ xs) (suc a) zero e = refl
  drop-take_end (x ∷ xs) (suc a) (suc b) e = drop-take_end xs a b e

  get_elem?-suc : (xs : List A) (a : ℕ) → get_elem? xs a ≡ none → get_elem? xs (suc a) ≡ none
  get_elem?-suc [] a e = refl
  get_elem?-suc (x ∷ xs) zero e = absurd cc
  get_elem?-suc (x ∷ xs) (suc a) e = get_elem?-suc xs a e

-- The loop of a node with the log `log` and the commit index `b` - 1.
module _ (log : Log) (c : ℤ) (b : ℕ) (committed : c +ℤ pos 1 ≡ pos b) where
  stopped :
      (a : ℕ) (node : RaftNode)
      → node.last_applied +ℤ pos 1 ≡ pos a
      → ltb_ℤ node.last_applied c ≡ false
      → node
        ≡ answer_all
            (drop a (take b log))
            (moved_to (if ltb_ℤ node.last_applied c then c else node.last_applied) node)
  stopped a node at done =
      let none_left : drop a (take b log) ≡ [] =
        drop-take_done log a b (ground (arith, at, done, committed)) in
      rw (done, none_left) refl

  -- The rounds after the one for the index `a`, with what it has read.
  after_one :
      (a n : ℕ) (node : RaftNode) (o : Option LogEntry)
      → get_elem? log a ≡ o
      → a < b
      → node.log ≡ log
      → node.commit_index ≡ c
      → ((m : RaftNode)
          → m.log ≡ log
          → m.commit_index ≡ c
          → m.last_applied ≡ pos a
          → apply_rounds n m ≡ answer_all (drop (suc a) (take b log)) (moved_to c m))
      → apply_rounds n (apply_entry o (moved_to (pos a) node))
        ≡ answer_all (drop a (take b log)) (moved_to c node)
  unfolding apply_entry answer_client
  after_one a n node none read h same_log same_commit rest =
      let here : drop a (take b log) ≡ [] = drop-take_end log a b read in
      let next : drop (suc a) (take b log) ≡ [] =
        drop-take_end log (suc a) b (get_elem?-suc log a read) in
      rest (moved_to (pos a) node) same_log same_commit refl ∙ rw (here, next) refl
  after_one a n node (some e) read h same_log same_commit rest =
      let here = drop-take log a b e h read in
      let m = answer_client e (moved_to (pos a) node) in
      rest m (ground (arith, same_log)) (ground (arith, same_commit)) (ground arith)
      ∙ ap (answer_all (drop (suc a) (take b log)))
          (sym (answer_client-moved_to e c (moved_to (pos a) node)))
      ∙ ap (λ es. answer_all es (moved_to c node)) (sym here)

  apply_one-read :
      (a : ℕ) (node : RaftNode)
      → node.log ≡ log
      → node.last_applied +ℤ pos 1 ≡ pos a
      → apply_one node ≡ apply_entry (get_elem? log a) (moved_to (pos a) node)
  unfolding apply_one
  apply_one-read a node same_log at =
      ap (λ i. apply_entry (log_read i node.log) (moved_to i node)) at
      ∙ ap (λ l. apply_entry (get_elem? l a) (moved_to (pos a) node)) same_log

  apply_rounds_lem :
      (n a : ℕ) (node : RaftNode)
      → node.log ≡ log
      → node.commit_index ≡ c
      → node.last_applied +ℤ pos 1 ≡ pos a
      → b ≤ n + a
      → apply_rounds n node
        ≡ answer_all
            (drop a (take b log))
            (moved_to (if ltb_ℤ node.last_applied c then c else node.last_applied) node)
  unfolding apply_rounds
  apply_rounds_lem zero a node same_log same_commit at enough =
      stopped a node at (ground (arith, at, enough, committed))
  apply_rounds_lem (suc n) a node same_log same_commit at enough =
      let test = ap (ltb_ℤ node.last_applied) same_commit in
      let either = λ (t : Bool). if t then apply_rounds n (apply_one node) else node in
      elim (Bool-cases (ltb_ℤ node.last_applied c)) [
        | inr done ↦ ap either (test ∙ done) ∙ stopped a node at done
        | inl more ↦
            let before : a < b = ground (arith, at, more, committed) in
            ap either (test ∙ more)
            ∙ ap (apply_rounds n) (apply_one-read a node same_log at)
            ∙ after_one a n node (get_elem? log a) refl before same_log same_commit
                (λ m same_log' same_commit' now.
                  let up : (if ltb_ℤ m.last_applied c then c else m.last_applied) ≡ c =
                    ground (arith, now, before, committed) in
                  apply_rounds_lem n (suc a) m same_log' same_commit'
                    (ap (λ i. i +ℤ pos 1) now ∙ ground arith) (omega arith)
                  ∙ ap (λ i. answer_all (drop (suc a) (take b log)) (moved_to i m)) up)
            ∙ ap
                (λ t.
                  answer_all (drop a (take b log))
                    (moved_to (if t then c else node.last_applied) node))
                (sym more)
      ]

-- With `a` - 1 the index that was applied last and `b` - 1 the commit index, the loop applies the
-- entries of the log from index `a` to index `b` - 1 as far as there are such, each once and in
-- the order of the log, and ends with the commit index as the last applied one; where that is reached
-- before, it does nothing.
pub apply_to_state_machine_lem :
    (node : RaftNode) (a b : ℕ)
    → node.last_applied +ℤ pos 1 ≡ pos a
    → node.commit_index +ℤ pos 1 ≡ pos b
    → apply_to_state_machine node
      ≡ answer_all
          (drop a (take b node.log))
          (moved_to (if ltb a b then node.commit_index else node.last_applied) node)
unfolding apply_to_state_machine
apply_to_state_machine_lem node a b at committed =
    let same : ltb_ℤ node.last_applied node.commit_index ≡ ltb a b =
      ground (arith, at, committed) in
    apply_rounds_lem node.log node.commit_index b committed
      (distance node.last_applied node.commit_index) a node refl refl at
      (ground (arith, at, committed))
    ∙ ap
        (λ t.
          answer_all (drop a (take b node.log))
            (moved_to (if t then node.commit_index else node.last_applied) node))
        same
