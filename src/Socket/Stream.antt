-- ===== src/Socket/Stream.antt =====
-- src/transport-socket/transport-socket.c: the loops that write one packet to a connection and read
-- one from it. A packet is the list of its `sizeof(pkt_t)` bytes in memory. The argument lists what
-- the calls of send() or read() give, one after the other; the call after the last of them fails,
-- as it does when the other side has closed the connection.

pub mod Framing
use raft_research.Prelude.{
  ℕ, zero, suc, ◌+◌, ◌-◌, List, [], ◌∷◌, ◌++◌, Bool, true, false, ltb, leb, ◌==◌, if◌then◌else◌,
  length, take, drop,
}

-- 16 bytes of header and MAX_PAYLOAD of payload.
abbrev pub sizeof_pkt : ℕ
sizeof_pkt = 1040

-- `blocked` is EAGAIN, with whether select() then finds the descriptor ready within 10 ms.
pub data Sending : Type 0 where
  wrote : ℕ → Sending
  send_interrupted : Sending
  send_blocked : Bool → Sending
  send_error : Sending

-- The bytes that went out, and whether the loop ended without an error.
unfoldable pub send_loop : List Sending → List ℕ → ℕ → Bool × List ℕ
send_loop [] pkt total_sent = (leb sizeof_pkt total_sent, [])
send_loop (wrote n ∷ rs) pkt total_sent =
    let rest = send_loop rs pkt (total_sent + n) in
    if leb sizeof_pkt total_sent
    then (true, [])
    else if n == 0
    then (false, [])
    else (rest.0, take n (drop total_sent pkt) ++ rest.1)
send_loop (send_interrupted ∷ rs) pkt total_sent =
    let rest = send_loop rs pkt total_sent in if leb sizeof_pkt total_sent then (true, []) else rest
send_loop (send_blocked ready ∷ rs) pkt total_sent =
    let rest = send_loop rs pkt total_sent in
    if leb sizeof_pkt total_sent then (true, []) else if ready then rest else (false, [])
send_loop (send_error ∷ rs) pkt total_sent = (leb sizeof_pkt total_sent, [])

-- `read_blocked` is EAGAIN, with whether the deadline has passed 1 ms later.
pub data Reading : Type 0 where
  got : List ℕ → Reading
  read_interrupted : Reading
  read_blocked : Bool → Reading
  read_error : Reading

-- A packet, nothing to read yet, or a connection that is to be closed.
pub data ReadEnd : Type 0 where
  whole : List ℕ → ReadEnd
  nothing : ReadEnd
  broken : ReadEnd

-- `buf` holds the bytes read so far.
unfoldable pub read_loop : List Reading → List ℕ → ReadEnd
read_loop [] buf = if leb sizeof_pkt (length buf) then whole buf else broken
read_loop (got bytes ∷ rs) buf =
    let rest = read_loop rs (buf ++ bytes) in
    if leb sizeof_pkt (length buf) then whole buf else if length bytes == 0 then broken else rest
read_loop (read_interrupted ∷ rs) buf =
    let rest = read_loop rs buf in if leb sizeof_pkt (length buf) then whole buf else rest
read_loop (read_blocked late ∷ rs) buf =
    let rest = read_loop rs buf in
    if leb sizeof_pkt (length buf)
    then whole buf
    else if length buf == 0
    then nothing
    else if late
    then broken
    else rest
read_loop (read_error ∷ rs) buf = if leb sizeof_pkt (length buf) then whole buf else broken
