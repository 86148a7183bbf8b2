-- ===== src/Raft/Dispatch/Delivery.antt =====
-- src/raft.c and src/rpc.c together: a message from the node that packs it to its handler.
use raft_research.Prelude.{ℕ, ◌≡◌, refl, ap, ◌∙◌, some, true, false, arith, ◌==◌}
use raft_research.Float.{Double}
use raft_research.Transport.{Pkt}
use raft_research.Rpc.Messages.{
  rpc_shutdown, rpc_call_append_ent, rpc_resp_append_ent, rpc_call_req_vote, rpc_resp_req_vote,
  rpc_call_proc, rpc_resp_proc, AppendEntriesReq, AppendEntriesRes, RequestVoteReq, RequestVoteRes,
  ProcReq, ProcRes, IsAppendEntriesReq, IsAppendEntriesRes, IsRequestVoteReq, IsRequestVoteRes,
  IsProcReq, IsProcRes,
}
use raft_research.Rpc.{
  pack_append_entries_res, unpack_append_entries_res, pack_request_vote_req,
  unpack_request_vote_req, pack_request_vote_res, unpack_request_vote_res, pack_proc_req,
  unpack_proc_req, pack_proc_res, unpack_proc_res,
}
use raft_research.Rpc.AppendEntries.{pack_append_entries_req, unpack_append_entries_req}
use raft_research.Rpc.RoundTrip.{
  append_entries_req_round_trip, append_entries_res_round_trip, request_vote_req_round_trip,
  request_vote_res_round_trip, proc_req_round_trip, proc_res_round_trip,
}
use raft_research.Raft.Node.{RaftNode}
use raft_research.Raft.Append.{handle_append_entries_request}
use raft_research.Raft.Replicate.{handle_append_entries_response}
use raft_research.Raft.Vote.{handle_request_vote_request, handle_request_vote_response}
use raft_research.Raft.Client.{handle_proc_request}
use raft_research.Raft.Dispatch.{packet, handle_proc_response, raft_handle_rpc, handle_received}

-- What the six kinds of packet carry.
pub data Message : Type 0 where
  call_append_ent : AppendEntriesReq → Message
  resp_append_ent : AppendEntriesRes → Message
  call_req_vote : RequestVoteReq → Message
  resp_req_vote : RequestVoteRes → Message
  call_proc : ProcReq → Message
  resp_proc : ProcRes → Message

-- The fields fit their types.
abbrev pub IsMessage : Message → Type 0
IsMessage (call_append_ent m) = IsAppendEntriesReq m
IsMessage (resp_append_ent m) = IsAppendEntriesRes m
IsMessage (call_req_vote m) = IsRequestVoteReq m
IsMessage (resp_req_vote m) = IsRequestVoteRes m
IsMessage (call_proc m) = IsProcReq m
IsMessage (resp_proc m) = IsProcRes m

abbrev pub pack_message : Pkt → ℕ → ℕ → Message → Pkt
pack_message pkt dst src (call_append_ent m) = (pack_append_entries_req pkt dst src m).1
pack_message pkt dst src (resp_append_ent m) = (pack_append_entries_res pkt dst src m).1
pack_message pkt dst src (call_req_vote m) = (pack_request_vote_req pkt dst src m).1
pack_message pkt dst src (resp_req_vote m) = (pack_request_vote_res pkt dst src m).1
pack_message pkt dst src (call_proc m) = (pack_proc_req pkt dst src m).1
pack_message pkt dst src (resp_proc m) = (pack_proc_res pkt dst src m).1

abbrev pub handle_message : ℕ → Message → RaftNode → RaftNode
handle_message src (call_append_ent m) node = handle_append_entries_request m node
handle_message src (resp_append_ent m) node = handle_append_entries_response src m node
handle_message src (call_req_vote m) node = handle_request_vote_request src m node
handle_message src (resp_req_vote m) node = handle_request_vote_response src m node
handle_message src (call_proc m) node = handle_proc_request m src node
handle_message src (resp_proc m) node = handle_proc_response m node

-- The code and the contents of a packet that carries the message.
abbrev code_of : Message → ℕ
code_of (call_append_ent m) = rpc_call_append_ent
code_of (resp_append_ent m) = rpc_resp_append_ent
code_of (call_req_vote m) = rpc_call_req_vote
code_of (resp_req_vote m) = rpc_resp_req_vote
code_of (call_proc m) = rpc_call_proc
code_of (resp_proc m) = rpc_resp_proc

abbrev Carries : Pkt → Message → Type 0
Carries pkt (call_append_ent m) = unpack_append_entries_req pkt ≡ some m
Carries pkt (resp_append_ent m) = unpack_append_entries_res pkt ≡ some m
Carries pkt (call_req_vote m) = unpack_request_vote_req pkt ≡ some m
Carries pkt (resp_req_vote m) = unpack_request_vote_res pkt ≡ some m
Carries pkt (call_proc m) = unpack_proc_req pkt ≡ some m
Carries pkt (resp_proc m) = unpack_proc_res pkt ≡ some m

rpc-Carries :
    (pkt : Pkt) (m : Message) (node : RaftNode)
    → pkt.header.code ≡ code_of m
    → Carries pkt m
    → raft_handle_rpc pkt node ≡ handle_message pkt.header.src m node
unfolding raft_handle_rpc
rpc-Carries pkt (call_append_ent m) node code back = rw (back, code) refl
rpc-Carries pkt (resp_append_ent m) node code back = rw (back, code) refl
rpc-Carries pkt (call_req_vote m) node code back = rw (back, code) refl
rpc-Carries pkt (resp_req_vote m) node code back = rw (back, code) refl
rpc-Carries pkt (call_proc m) node code back = rw (back, code) refl
rpc-Carries pkt (resp_proc m) node code back = rw (back, code) refl

pack_message-header :
    (pkt : Pkt) (dst src : ℕ) (m : Message)
    → IsMessage m
    → let header = (pack_message pkt dst src m).header in
      (header.code ≡ code_of m) × (header.dst ≡ dst) × (header.src ≡ src)
unfolding pack_append_entries_req pack_append_entries_res pack_request_vote_req
    pack_request_vote_res pack_proc_req pack_proc_res
pack_message-header pkt dst src (call_append_ent m) w = ground arith
pack_message-header pkt dst src (resp_append_ent m) w = (refl, refl, refl)
pack_message-header pkt dst src (call_req_vote m) w = (refl, refl, refl)
pack_message-header pkt dst src (resp_req_vote m) w = (refl, refl, refl)
pack_message-header pkt dst src (call_proc m) w = (refl, refl, refl)
pack_message-header pkt dst src (resp_proc m) w = (refl, refl, refl)

pack_message-Carries :
    (pkt : Pkt) (dst src : ℕ) (m : Message) → IsMessage m → Carries (pack_message pkt dst src m) m
pack_message-Carries pkt dst src (call_append_ent m) w =
    let (rc, fits, back) = append_entries_req_round_trip pkt dst src m w in back
pack_message-Carries pkt dst src (resp_append_ent m) w =
    let (rc, back) = append_entries_res_round_trip pkt dst src m w in back
pack_message-Carries pkt dst src (call_req_vote m) w =
    let (rc, back) = request_vote_req_round_trip pkt dst src m w in back
pack_message-Carries pkt dst src (resp_req_vote m) w =
    let (rc, back) = request_vote_res_round_trip pkt dst src m w in back
pack_message-Carries pkt dst src (call_proc m) w =
    let (rc, back) = proc_req_round_trip pkt dst src m w in back
pack_message-Carries pkt dst src (resp_proc m) w =
    let (rc, back) = proc_res_round_trip pkt dst src m w in back

not_shutdown : (m : Message) → (code_of m == rpc_shutdown) ≡ false
not_shutdown (call_append_ent m) = refl
not_shutdown (resp_append_ent m) = refl
not_shutdown (call_req_vote m) = refl
not_shutdown (resp_req_vote m) = refl
not_shutdown (call_proc m) = refl
not_shutdown (resp_proc m) = refl

module _ (fp : Double) where
  -- A packet that a node has packed for this node, from any of the six kinds of message with fields
  -- that fit their types, has the effect of the handler of that kind on the same message.
  pub handle_received-pack_message :
      (pkt : Pkt) (src : ℕ) (m : Message) (node : RaftNode)
      → IsMessage m
      → handle_received fp (packet (pack_message pkt node.config.id src m)) node
        ≡ handle_message src m node
  unfolding handle_received
  handle_received-pack_message pkt src m node w =
      let out = pack_message pkt node.config.id src m in
      let (code, dst, from) = pack_message-header pkt node.config.id src m w in
      let goes_on : (out.header.code == rpc_shutdown) ≡ false =
        ap (λ (c : ℕ). c == rpc_shutdown) code ∙ not_shutdown m in
      let mine : (out.header.dst == node.config.id) ≡ true = ground (arith, dst) in
      rw (goes_on, mine)
        (rpc-Carries out m node code (pack_message-Carries pkt node.config.id src m w)
          ∙ ap (λ (s : ℕ). handle_message s m node) from)
