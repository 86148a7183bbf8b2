-- ===== src/Client/Requests.antt =====
-- src/util-unix/client.c: the requests that the client sends, and the answer it reports.
use raft_research.Prelude.{ℕ, ◌≤◌, ◌<◌, ◌≡◌, ◌≢◌, refl, List, [], ◌∷◌, some, length}
use raft_research.Transport.{Pkt, uninit_pkt}
use raft_research.Rpc.Messages.{ProcReq, ProcRes, IsProcReq}
use raft_research.Rpc.{pack_proc_req, unpack_proc_req, unpack_proc_res}
use raft_research.Rpc.RoundTrip.{proc_req_round_trip}
use raft_research.Client.{TransportOps, committed, ClientRun, client_id}

-- The packet carries the request to a node.
pub record Carries (num_peers : ℕ) (req : ProcReq) (pkt : Pkt) : Type 0 where
  pub reads : unpack_proc_req pkt ≡ some req
  pub to_node : pkt.header.dst < num_peers
  pub from_client : pkt.header.src ≡ client_id

abbrev pub AllCarry : ℕ → ProcReq → List Pkt → Type 0
AllCarry num_peers req [] = Unit {0}
AllCarry num_peers req (pkt ∷ pkts) = Carries num_peers req pkt × AllCarry num_peers req pkts

-- An answer that reports success.
abbrev pub Succeeds : Pkt → Type 0
Succeeds pkt = (res : ProcRes) × (unpack_proc_res pkt ≡ some res) × (res.success ≢ 0)

module _ {ℓ} {S : Type ℓ} (t : TransportOps S) (num_peers : ℕ) (req : ProcReq) where
  pub record Requests (left : ℕ) (run : ClientRun S) : Type ℓ where
    pub few : length run.sent ≤ left
    pub carry : AllCarry num_peers req run.sent
    pub told : run.end ≡ committed → (s : S) × Succeeds (t.receive 10000 s).1

pub request-Carries :
    (num_peers : ℕ) (req : ProcReq) (target : ℕ)
    → IsProcReq req
    → target < num_peers
    → Carries num_peers req (pack_proc_req uninit_pkt target client_id req).1
unfolding pack_proc_req
request-Carries num_peers req target words known = record {
  reads = (proc_req_round_trip uninit_pkt target client_id req words).1;
  to_node = known;
  from_client = refl;
}
