-- ===== src/Transport.antt =====
-- src/transport.h: the packet that nodes and clients exchange.
use raft_research.Prelude.{ℕ}
use raft_research.Memory.{Bytes}

abbrev pub max_payload : ℕ
max_payload = 1024

-- `pkt_header_t`. The code fills `payload_n` with a number of bytes.
pub record PktHeader : Type 0 where
  pub dst : ℕ
  pub src : ℕ
  pub payload_n : ℕ
  pub code : ℕ

-- `pkt_t`
pub record Pkt : Type 0 where
  pub header : PktHeader
  pub payload : Bytes

-- A `pkt_t` on the stack before anything is stored in it. Its contents are unspecified in C; zero
-- is one choice, and every result about packing is stated for an arbitrary packet.
abbrev pub uninit_pkt : Pkt
uninit_pkt = record {
  header = record { dst = 0; src = 0; payload_n = 0; code = 0 };
  payload = λ _. 0;
}
