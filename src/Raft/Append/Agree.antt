-- ===== src/Raft/Append/Agree.antt =====
-- src/raft.c, from the request that a leader builds in `broadcast_append_entries` to
-- `handle_append_entries_request` of a follower: the two logs.
use raft_research.Raft.Node.Terms.{log_term-some}
use raft_research.Prelude.{
  ℕ, zero, suc, ◌+◌, ◌≤◌, ◌<◌, ◌^◌, ◌≡◌, refl, sym, ap, ap₂, subst, ◌∙◌, [], ◌∷◌, true, false,
  arith, length, take, drop, get_or, ◌==◌, get_elem?-lt, take-all, length-take,
}
use raft_research.Prelude.Int.{pos, ◌+ℤ◌, ◌-ℤ◌, to_int, sub32, ltb_ℤ}
use raft_research.Store.{Log, get_term}
use raft_research.Raft.Node.{RaftNode, raft_get_log_term}
use raft_research.Raft.Send.{read_entries, append_entries_req, n_to_send}
use raft_research.Raft.Append.{is_inconsistent, handle_append_entries_request}
use raft_research.Raft.Append.Merge.{merge}
use raft_research.Raft.Append.Handle.{IsInRange, first_new}
use raft_research.Raft.Append.Reply.{accepts}
use raft_research.Raft.Append.Terms.{accepted-log, accepted-within}
use raft_research.Raft.Append.Matching.{Matching, merge-Matching, Matching-merge, drop-some}

-- What the loop reads is the part of the log from `i` on.
read_entries-drop :
    (l : Log) (i n : ℕ) → i + n ≤ length l → read_entries l (pos i) n ≡ take n (drop i l)
unfolding read_entries
read_entries-drop l i zero h = refl
read_entries-drop l i (suc n) h =
    let (e, there) = get_elem?-lt l i (omega arith) in
    let next : pos i +ℤ pos 1 ≡ pos (suc i) = ground arith in
    rw (drop-some l i e there, there, next)
      (ap (λ (r : Log). e ∷ r) (read_entries-drop l (suc i) n (omega arith)))

-- A log that has the leader's term before the new entries has the leader's entries there.
consistent :
    (l f : Log) (i : ℕ)
    → Matching l f
    → length l < 2 ^ 31
    → length f < 2 ^ 31
    → i ≤ length l
    → i ≤ length f
    → (raft_get_log_term f (to_int (sub32 i 1)) == raft_get_log_term l (to_int i -ℤ pos 1)) ≡ true
    → take i f ≡ take i l
consistent l f zero match sl sf hl hf test = refl
consistent l f (suc p) match sl sf hl hf test =
    let (x, there) = get_elem?-lt l p (omega arith) in
    let (y, found) = get_elem?-lt f p (omega arith) in
    let at_f : to_int (sub32 (suc p) 1) ≡ pos p = ground arith in
    let at_l : to_int (suc p) -ℤ pos 1 ≡ pos p = ground arith in
    let term_f : raft_get_log_term f (to_int (sub32 (suc p) 1)) ≡ y.term =
      ap (raft_get_log_term f) at_f ∙ log_term-some f p y sf found in
    let term_l : raft_get_log_term l (to_int (suc p) -ℤ pos 1) ≡ x.term =
      ap (raft_get_log_term l) at_l ∙ log_term-some l p x sl there in
    sym (match p x y there found (ground (arith, term_f, term_l, test)))

-- Where `next_index` is within a log of fewer than 2^31 entries, the number of entries that
-- `broadcast_append_entries` sends is at most 32 and stays within the log.
n_to_send-within :
    (len next : ℕ)
    → len < 2 ^ 31
    → next ≤ len
    → (next + n_to_send (to_int len) (to_int next) ≤ len)
      × (n_to_send (to_int len) (to_int next) ≤ 32)
unfolding n_to_send
n_to_send-within len next small within = ground arith

length-drop : (l : Log) (i : ℕ) → i ≤ length l → i + length (drop i l) ≡ length l
length-drop l zero h = omega arith
length-drop [] (suc i) h = omega arith
length-drop (x ∷ l) (suc i) h = omega (arith, length-drop l i (omega arith))

-- The entries of the request to node `j`.
entries-drop :
    (a : RaftNode) (j n : ℕ)
    → length a.log < 2 ^ 31
    → get_or a.next_index j 0 + n ≤ length a.log
    → let req = append_entries_req a j n in
      take req.n_entries req.entries ≡ take n (drop (get_or a.next_index j 0) a.log)
unfolding append_entries_req
entries-drop a j n small within =
    let next = get_or a.next_index j 0 in
    let at : to_int next ≡ pos next = ground arith in
    rw (at, read_entries-drop a.log next n within)
      (take-all n (take n (drop next a.log)) (omega (arith, length-take n (drop next a.log))))

request-IsInRange :
    (a : RaftNode) (j n : ℕ) (f : Log)
    → get_or a.next_index j 0 < 2 ^ 31
    → n ≤ 32
    → length f + 32 < 2 ^ 31
    → IsInRange (append_entries_req a j n) f
unfolding append_entries_req
request-IsInRange a j n f small few room = record { index = ground arith; few = few; small = room }

request-first_new :
    (a : RaftNode) (j n : ℕ)
    → get_or a.next_index j 0 < 2 ^ 31
    → first_new (append_entries_req a j n) ≡ get_or a.next_index j 0
unfolding append_entries_req
request-first_new a j n small = omega arith

request-consistent :
    (a b : RaftNode) (j n : ℕ)
    → accepts (append_entries_req a j n) b ≡ true
    → let next = get_or a.next_index j 0 in
      (raft_get_log_term b.log (to_int (sub32 next 1))
        == raft_get_log_term a.log (to_int next -ℤ pos 1))
      ≡ true
unfolding append_entries_req is_inconsistent
request-consistent a b j n ok = ground (arith, ok)

-- What an accepted request finds and leaves.
record IsMerged (a b : RaftNode) (i n : ℕ) (after : Log) : Type 0 where
  reached : i ≤ length b.log
  same : take i b.log ≡ take i a.log
  merged : after ≡ merge b.log i (take n (drop i a.log))

module _ (a b : RaftNode) (j n : ℕ) (match : Matching a.log b.log) (sa : length a.log < 2 ^ 31)
    (sb : length b.log + 32 < 2 ^ 31) (within : get_or a.next_index j 0 + n ≤ length a.log)
    (few : n ≤ 32) (natural : ltb_ℤ (get_term b.hard_state) (pos 0) ≡ false)
    (ok : accepts (append_entries_req a j n) b ≡ true) where
  abbrev after : Log
  after = (handle_append_entries_request (append_entries_req a j n) b).log

  after-IsMerged : IsMerged a b (get_or a.next_index j 0) n after
  after-IsMerged =
      let next = get_or a.next_index j 0 in
      let req = append_entries_req a j n in
      let range = request-IsInRange a j n b.log (omega arith) few sb in
      let start = request-first_new a j n (omega arith) in
      let reached : next ≤ length b.log =
        subst (λ (i : ℕ). i ≤ length b.log) start (accepted-within req b range ok) in
      record {
        reached = reached;
        same =
            consistent a.log b.log next match sa (omega arith) (omega arith) reached
              (request-consistent a b j n ok);
        merged =
            accepted-log req b range natural ok
            ∙ ap₂ (merge b.log) start (entries-drop a j n sa within);
      }

  -- Log matching: let the log of node `b` match the log of leader `a`, in that entries of the same
  -- term at an index mean that the logs are the same up to there. When `b` accepts the request that
  -- `a` builds for it from `next_index`, with `n` entries, the log of `b` is then that of `a` up to
  -- the last of these entries. The entries are within the log of `a` and at most 32, the log of `a`
  -- has fewer than 2^31 entries and that of `b` at least 33 fewer, and the term of `b` is below
  -- 2^31.
  pub append_entries-agree :
      let end = get_or a.next_index j 0 + n in
      take end (handle_append_entries_request (append_entries_req a j n) b).log ≡ take end a.log
  append_entries-agree =
      let next = get_or a.next_index j 0 in
      let es = take n (drop next a.log) in
      let m = after-IsMerged in
      let count : next + length es ≡ next + n =
        omega (arith, length-take n (drop next a.log), length-drop a.log next (omega arith)) in
      subst (λ (k : ℕ). take k after ≡ take k a.log) count
        (ap (take (next + length es)) m.merged
          ∙ merge-Matching n next a.log b.log match m.same m.reached)

  -- Under the same conditions the log of `b` still matches that of `a` after the request, so that
  -- the next one finds it so.
  pub append_entries-Matching :
      Matching a.log (handle_append_entries_request (append_entries_req a j n) b).log
  append_entries-Matching =
      let m = after-IsMerged in
      subst (Matching a.log) (sym m.merged)
        (Matching-merge n (get_or a.next_index j 0) a.log b.log match m.same m.reached)
