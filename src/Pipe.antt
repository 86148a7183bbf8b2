-- ===== src/Pipe.antt =====
-- src/transport-pipe/transport-pipe.c: the transport over two pipes. The argument is what the system
-- calls return.
use raft_research.Prelude.{ℕ, ◌*◌, ◌/◌, ◌%◌, ◌==◌, Bool, if◌then◌else◌}
use raft_research.Prelude.Int.{ℤ, pos, negsuc, ltb_ℤ, is_zero}
use raft_research.Socket.Stream.{sizeof_pkt}

abbrev is_size : ℤ → Bool
is_size (pos n) = n == sizeof_pkt
is_size _ = Bool.false

abbrev pub pipe_send : ℤ → ℤ
pipe_send written = if is_size written then pos 0 else negsuc 0

-- `timeout`: seconds and microseconds.
abbrev pub pipe_timeout : ℕ → ℕ × ℕ
pipe_timeout timeout_ms = (timeout_ms / 1000, timeout_ms % 1000 * 1000)

-- `selected` is the result of select() for the timeout, `read` that of read().
unfoldable pub pipe_receive : ((ℕ × ℕ) → ℤ) → ℤ → ℕ → ℤ
pipe_receive select read timeout_ms =
    let ret = select (pipe_timeout timeout_ms) in
    if is_zero ret
    then pos 0
    else if ltb_ℤ ret (pos 0)
    then negsuc 0
    else if is_size read
    then pos 1
    else negsuc 0
