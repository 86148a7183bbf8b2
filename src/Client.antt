-- ===== src/Client.antt =====
-- src/util-unix/client.c: a client that sends one command and follows the hint of a node that is not
-- the leader. The transport is a parameter: the functions of src/transport.h on a state.

pub mod Requests
use raft_research.Prelude.{
  ℕ, zero, suc, List, [], ◌∷◌, ◌++◌, Option, none, some, Bool, not, ltb, leb, ◌==◌, if◌then◌else◌,
  length, ◌%◌, ◌^◌, get_or, take,
}
use raft_research.Prelude.Int.{ℤ, pos, to_u32, leb_ℤ, is_zero}
use raft_research.Cstring.{atoi, tokens}
use raft_research.Transport.{Pkt, uninit_pkt}
use raft_research.Rpc.Messages.{ProcReq, ProcRes, rpc_resp_proc}
use raft_research.Rpc.{pack_proc_req, unpack_proc_res}

-- `transport_t`: `tx_fn_t` gives its result, `rx_fn_t` its result and the packet.
pub record TransportOps {ℓ} (S : Type ℓ) : Type ℓ where
  pub send : Pkt → S → ℤ × S
  pub receive : ℕ → S → ℤ × Pkt × S

abbrev pub client_id : ℕ
client_id = 999

-- How the loop ends.
pub data ClientEnd : Type 0 where
  out_of_range pack_failed send_failed no_answer unexpected_code unpack_failed committed bad_hint :
      ClientEnd
  gave_up : ClientEnd

-- `sent` lists the packets handed to the transport.
pub record ClientRun {ℓ} (S : Type ℓ) : Type ℓ where
  pub end : ClientEnd
  pub sent : List Pkt
  pub state : S

-- What the answer to a request tells.
pub data Answer : Type 0 where
  stop : ClientEnd → Answer
  try : ℕ → Answer

abbrev pub follow_hint : ℕ → Option ProcRes → Answer
follow_hint num_peers none = stop unpack_failed
follow_hint num_peers (some res) =
    if res.success == 0
    then if ltb res.leader_hint num_peers then try res.leader_hint else stop bad_hint
    else stop committed

unfoldable pub read_answer : ℕ → ℤ → Pkt → Answer
read_answer num_peers ret res_pkt =
    if leb_ℤ ret (pos 0)
    then stop no_answer
    else if res_pkt.header.code == rpc_resp_proc
    then follow_hint num_peers (unpack_proc_res res_pkt)
    else stop unexpected_code

module _ {ℓ} {S : Type ℓ} (t : TransportOps S) (num_peers : ℕ) (req : ProcReq) where
  abbrev pub after_answer : Answer → Pkt → S → (ℕ → S → ClientRun S) → ClientRun S
  after_answer (stop end) pkt s again = record { end = end; sent = pkt ∷ []; state = s }
  after_answer (try target) pkt s again =
      let rest = again target s in
      record { end = rest.end; sent = pkt ∷ rest.sent; state = rest.state }

  -- `while (attempts < 2)`, where `left` is 2 - attempts.
  unfoldable pub client_loop : ℕ → ℕ → S → ClientRun S
  client_loop zero target_node s = record { end = gave_up; sent = []; state = s }
  client_loop (suc left) target_node s =
      let (packed, pkt) = pack_proc_req uninit_pkt target_node client_id req in
      let (rc, s1) = t.send pkt s in
      let (ret, res_pkt, s2) = t.receive 10000 s1 in
      if leb num_peers target_node
      then record { end = out_of_range; sent = []; state = s }
      else if not (is_zero packed)
      then record { end = pack_failed; sent = []; state = s }
      else if not (is_zero rc)
      then record { end = send_failed; sent = pkt ∷ []; state = s1 }
      else after_answer (read_answer num_peers ret res_pkt) pkt s2 (client_loop left)

-- What main() comes to: exit() or `return` before the loop, a division by zero, or the loop.
pub data ClientMain {ℓ} (S : Type ℓ) : Type ℓ where
  exited : ℕ → ClientMain S
  divided_by_zero : ClientMain S
  ran : ClientRun S → ClientMain S

-- At most `max` of the addresses in a list with commas.
abbrev pub parse_peers : ℕ → List ℕ → List (List ℕ)
parse_peers max peers_str = take max (tokens peers_str)

abbrev pub new_request : List ℕ → ℕ → ProcReq
new_request cmd now = record {
  client_id = client_id;
  cmd_seqno = now % 2 ^ 32;
  cmd = to_u32 (atoi cmd);
}

module _ {ℓ} {S : Type ℓ} (t : TransportOps S) where
  abbrev pub client_start : ℕ → ℕ → ProcReq → Option S → ClientMain S
  client_start num_peers draw req none = exited 1
  client_start num_peers draw req (some s) =
      if num_peers == 0
      then divided_by_zero
      else ran (client_loop t num_peers req 2 (draw % num_peers) s)

  -- main(), where `init` opens the transport for the id and the addresses, `draw` is the result of
  -- rand() and `now` that of time().
  unfoldable pub client_main : (ℕ → List (List ℕ) → Option S) → ℕ → ℕ → List (List ℕ) → ClientMain S
  client_main init draw now argv =
      let peers = parse_peers 16 (get_or argv 2 []) in
      if ltb (length argv) 4
      then exited 1
      else client_start (length peers) draw (new_request (get_or argv 1 []) now)
          (init (length peers) (peers ++ get_or argv 3 [] ∷ []))
