-- ===== src/Socket/Stream/Framing.antt =====
-- src/transport-socket/transport-socket.c: a packet over a connection that splits it anywhere.
use raft_research.Prelude.{
  ℕ, zero, suc, ◌+◌, ◌<◌, ◌≤◌, ◌≡◌, refl, ap, sym, ◌∙◌, List, [], ◌∷◌, ◌++◌, Bool, true, false,
  arith, inl, inr, leb, ◌==◌, Bool-cases, length, length-append, take, drop, append_nil,
  append_assoc,
}
use raft_research.Socket.Stream.{
  sizeof_pkt, Sending, wrote, send_interrupted, send_blocked, send_error, send_loop, Reading, got,
  read_interrupted, read_blocked, read_error, whole, read_loop,
}

empty : (xs : List ℕ) → length xs ≡ 0 → xs ≡ []
empty [] h = refl
empty (x ∷ xs) h = absurd (omega arith)

drop-all : (n : ℕ) (xs : List ℕ) → length xs ≤ n → drop n xs ≡ []
drop-all zero [] h = refl
drop-all zero (x ∷ xs) h = absurd (omega arith)
drop-all (suc n) [] h = refl
drop-all (suc n) (x ∷ xs) h = drop-all n xs (omega arith)

take-drop : (k : ℕ) (xs : List ℕ) → take k xs ++ drop k xs ≡ xs
take-drop zero xs = refl
take-drop (suc k) [] = refl
take-drop (suc k) (x ∷ xs) = ap (λ r. x ∷ r) (take-drop k xs)

drop-nil : (n : ℕ) → drop {A = ℕ} n [] ≡ []
drop-nil zero = refl
drop-nil (suc n) = refl

drop-drop : (n k : ℕ) (xs : List ℕ) → drop (n + k) xs ≡ drop k (drop n xs)
drop-drop zero k xs = let e : 0 + k ≡ k = omega arith in ap (λ m. drop m xs) e
drop-drop (suc n) k [] = drop-nil (suc n + k) ∙ sym (drop-nil k)
drop-drop (suc n) k (x ∷ xs) =
    let e : suc n + k ≡ suc (n + k) = omega arith in ap (λ m. drop m (x ∷ xs)) e ∙ drop-drop n k xs

next_part :
    (total n : ℕ) (xs : List ℕ) → take n (drop total xs) ++ drop (total + n) xs ≡ drop total xs
next_part total n xs =
    ap (λ r. take n (drop total xs) ++ r) (drop-drop total n xs) ∙ take-drop n (drop total xs)

-- What is still to be written when the loop stops.
pub record Unsent (pkt : List ℕ) (total : ℕ) (out : Bool × List ℕ) : Type 0 where
  pub rest : List ℕ
  pub split : out.1 ++ rest ≡ drop total pkt
  pub none_left : out.0 ≡ true → rest ≡ []

over :
    (pkt : List ℕ) (total : ℕ)
    → length pkt ≡ sizeof_pkt
    → leb sizeof_pkt total ≡ true
    → Unsent pkt total (true, [])
over pkt total size full = record {
  rest = drop total pkt;
  split = refl;
  none_left = λ e. drop-all total pkt (ground (arith, size, full));
}

stopped : (pkt : List ℕ) (total : ℕ) → Unsent pkt total (false, [])
stopped pkt total = record { rest = drop total pkt; split = refl; none_left = λ e. absurd cc }

pub send_loop-Unsent :
    (rs : List Sending) (pkt : List ℕ) (total : ℕ)
    → length pkt ≡ sizeof_pkt
    → Unsent pkt total (send_loop rs pkt total)
unfolding send_loop
send_loop-Unsent [] pkt total size = elim (Bool-cases (leb sizeof_pkt total)) [
  | inl full ↦ rw full (over pkt total size full)
  | inr short ↦ rw short (stopped pkt total)
]
send_loop-Unsent (send_error ∷ rs) pkt total size = elim (Bool-cases (leb sizeof_pkt total)) [
  | inl full ↦ rw full (over pkt total size full)
  | inr short ↦ rw short (stopped pkt total)
]
send_loop-Unsent (send_interrupted ∷ rs) pkt total size = elim (Bool-cases (leb sizeof_pkt total)) [
  | inl full ↦ rw full (over pkt total size full)
  | inr short ↦ rw short (send_loop-Unsent rs pkt total size)
]
send_loop-Unsent (send_blocked ready ∷ rs) pkt total size =
    elim (Bool-cases (leb sizeof_pkt total)) [
      | inl full ↦ rw full (over pkt total size full)
      | inr short ↦ elim (Bool-cases ready) [
        | inl yes' ↦ rw (short, yes') (send_loop-Unsent rs pkt total size)
        | inr no' ↦ rw (short, no') (stopped pkt total)
      ]
    ]
send_loop-Unsent (wrote n ∷ rs) pkt total size =
    let later = send_loop-Unsent rs pkt (total + n) size in
    elim (Bool-cases (leb sizeof_pkt total)) [
      | inl full ↦ rw full (over pkt total size full)
      | inr short ↦ elim (Bool-cases (n == 0)) [
        | inl none_out ↦ rw (short, none_out) (stopped pkt total)
        | inr out ↦
            rw (short, out)
              (record {
                rest = later.rest;
                split =
                    append_assoc (take n (drop total pkt)) (send_loop rs pkt (total + n)).1
                      later.rest
                    ∙ ap (λ r. take n (drop total pkt) ++ r) later.split
                    ∙ next_part total n pkt;
                none_left = later.none_left;
              })
      ]
    ]

-- The bytes that the reads give.
abbrev pub bytes_of : List Reading → List ℕ
bytes_of [] = []
bytes_of (got bytes ∷ rs) = bytes ++ bytes_of rs
bytes_of (_ ∷ rs) = bytes_of rs

-- No read fails or finds the end of the stream, and the bytes come before the deadline.
abbrev pub InTime : List Reading → Type 0
InTime [] = Unit {0}
InTime (got bytes ∷ rs) = (0 < length bytes) × InTime rs
InTime (read_interrupted ∷ rs) = InTime rs
InTime (read_blocked late ∷ rs) = (late ≡ false) × InTime rs
InTime (read_error ∷ rs) = Bool.true ≡ false

filled :
    (buf more pkt : List ℕ)
    → buf ++ more ≡ pkt
    → length pkt ≡ sizeof_pkt
    → leb sizeof_pkt (length buf) ≡ true
    → whole buf ≡ whole pkt
filled buf more pkt e size full =
    let len = ap (λ xs. length xs) e in
    let none_more = empty more (ground (arith, length-append buf more, full)) in
    ap whole (sym (append_nil buf) ∙ ap (λ r. buf ++ r) (sym none_more) ∙ e)

read_loop-whole :
    (rs : List Reading) (buf pkt : List ℕ)
    → 0 < length buf
    → InTime rs
    → buf ++ bytes_of rs ≡ pkt
    → length pkt ≡ sizeof_pkt
    → read_loop rs buf ≡ whole pkt
unfolding read_loop
read_loop-whole [] buf pkt some_ calm e size =
    let len = ap (λ xs. length xs) e in
    let full : leb sizeof_pkt (length buf) ≡ true =
      ground (arith, len, size, length-append buf []) in
    rw full (filled buf [] pkt e size full)
read_loop-whole (got bytes ∷ rs) buf pkt some_ calm e size =
    elim (Bool-cases (leb sizeof_pkt (length buf))) [
      | inl full ↦ rw full (filled buf (bytes ++ bytes_of rs) pkt e size full)
      | inr short ↦
          let nonempty : (length bytes == 0) ≡ false = ground (arith, calm.0) in
          let longer : 0 < length (buf ++ bytes) = omega (arith, some_, length-append buf bytes) in
          rw (short, nonempty)
            (read_loop-whole rs (buf ++ bytes) pkt longer calm.1
              (append_assoc buf bytes (bytes_of rs) ∙ e) size)
    ]
read_loop-whole (read_interrupted ∷ rs) buf pkt some_ calm e size =
    elim (Bool-cases (leb sizeof_pkt (length buf))) [
      | inl full ↦ rw full (filled buf (bytes_of rs) pkt e size full)
      | inr short ↦ rw short (read_loop-whole rs buf pkt some_ calm e size)
    ]
read_loop-whole (read_blocked late ∷ rs) buf pkt some_ calm e size =
    let begun : (length buf == 0) ≡ false = ground (arith, some_) in
    elim (Bool-cases (leb sizeof_pkt (length buf))) [
      | inl full ↦ rw full (filled buf (bytes_of rs) pkt e size full)
      | inr short ↦ rw (short, begun, calm.0) (read_loop-whole rs buf pkt some_ calm.1 e size)
    ]
read_loop-whole (read_error ∷ rs) buf pkt some_ calm e size = absurd cc

-- A packet that the send loop has written without an error, in however many parts, is the packet
-- that the read loop gives on the other side, in whatever parts its bytes come: if the first read
-- gives some of them, no read fails, and the rest come before the deadline.
pub stream_round_trip :
    (sends : List Sending) (first : List ℕ) (reads : List Reading) (pkt : List ℕ)
    → length pkt ≡ sizeof_pkt
    → (send_loop sends pkt 0).0 ≡ true
    → InTime (got first ∷ reads)
    → bytes_of (got first ∷ reads) ≡ (send_loop sends pkt 0).1
    → read_loop (got first ∷ reads) [] ≡ whole pkt
unfolding read_loop
stream_round_trip sends first reads pkt size ok calm same =
    let sent = send_loop-Unsent sends pkt 0 size in
    let all : (send_loop sends pkt 0).1 ≡ pkt =
      sym (append_nil (send_loop sends pkt 0).1)
      ∙ ap (λ r. (send_loop sends pkt 0).1 ++ r) (sym (sent.none_left ok))
      ∙ sent.split in
    let nonempty : (length first == 0) ≡ false = ground (arith, calm.0) in
    rw nonempty (read_loop-whole reads first pkt calm.0 calm.1 (same ∙ all) size)
