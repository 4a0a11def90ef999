-- ===== src/Tracker/Answer.antt =====
-- The three messages of a connection that the network opens, one after the other.
use libconntrack_cm.Base.{
  ℕ, ◌+◌, ◌≡◌, ◌≢◌, refl, sym, ◌∙◌, true, none, [], ◌∷◌, Option-cases, inl, inr,
}
use libconntrack_cm.Packet.{Dpdk, DynfieldOffsets, Mbuf, ok, mbuf_ip}
use libconntrack_cm.Packet.Memory.{load32}
use libconntrack_cm.Iba.{iba_get}
use libconntrack_cm.Cm.Req.{cm_req_local_comm_id, cm_req_local_qpn}
use libconntrack_cm.Cm.Rep.{cm_rep_local_comm_id, cm_rep_remote_comm_id, cm_rep_local_qpn}
use libconntrack_cm.Cm.Rtu.{cm_rtu_remote_comm_id}
use libconntrack_cm.Store.{CmFlowKey, Tracker, is_set}
use libconntrack_cm.Tracker.{get_source_qpn}
use libconntrack_cm.Tracker.Dispatch.{from_host, from_net, process_all}
use libconntrack_cm.Tracker.Invariant.{Inv}
use libconntrack_cm.Tracker.HandshakeFlow.{Carries}
use libconntrack_cm.Tracker.Connect.{Holds-id, process_all-three}
use libconntrack_cm.Tracker.Faults.{process-req_received}
use libconntrack_cm.Tracker.Responder.{
  process-rep_sent, process-rtu_received, req_received-opens, rep_sent-binds, rtu_received-lists,
}
use libconntrack_cm.Tracker.ResponderFlow.{asked, accepted}

zero-unbound : {t : Tracker} → Inv t → t.local_map 0 ≡ none
zero-unbound {t} i = elim (Option-cases (t.local_map 0)) [
  | inl e ↦ e
  | inr (p, e) ↦ let (ne, lt, id) = i.local_ok 0 p e in absurd (ne refl)
]

-- The tracker satisfies its invariant. A REQ comes from the network, with a source address and an ID that are
-- not 0 and are not in use; the host sends a REP for it to that address, with a local ID that is not 0 and not
-- in use; the RTU for that ID comes from the network. Both QP numbers are not 0, and the QPN table has no entry
-- for the address and the remote QP number yet. Then the three packets are processed without a failure, and a
-- query for that address and remote QP number gives the host's QP number.
pub answer-get_source_qpn :
    (d : Dpdk) (parser : DynfieldOffsets) (req rep rtu : Mbuf) (a b c ip ip' : ℕ) (t : Tracker)
    → Inv t
    → Carries parser req a 0x10
    → Carries parser rep b 0x13
    → Carries parser rtu c 0x14
    → mbuf_ip d req ≡ ok ip
    → mbuf_ip d rep ≡ ok ip'
    → is_set (load32 req.bytes (ip + 12), iba_get cm_req_local_comm_id req.bytes a) ≡ true
    → load32 rep.bytes (ip' + 16) ≡ load32 req.bytes (ip + 12)
    → iba_get cm_rep_remote_comm_id rep.bytes b ≡ iba_get cm_req_local_comm_id req.bytes a
    → iba_get cm_rep_local_comm_id rep.bytes b ≢ 0
    → iba_get cm_rtu_remote_comm_id rtu.bytes c ≡ iba_get cm_rep_local_comm_id rep.bytes b
    → iba_get cm_rep_local_qpn rep.bytes b ≢ 0
    → iba_get cm_req_local_qpn req.bytes a ≢ 0
    → t.remote_map (load32 req.bytes (ip + 12), iba_get cm_req_local_comm_id req.bytes a) ≡ none
    → t.local_map (iba_get cm_rep_local_comm_id rep.bytes b) ≡ none
    → t.qpn_map (load32 req.bytes (ip + 12), iba_get cm_req_local_qpn req.bytes a) ≡ none
    → (u : Tracker) × (process_all d parser
          ((req, from_net) ∷ (rep, from_host) ∷ (rtu, from_net) ∷ [])
          t
        ≡ ok (tt, u))
      × (get_source_qpn u (load32 req.bytes (ip + 12), iba_get cm_req_local_qpn req.bytes a)
          ≡ iba_get cm_rep_local_qpn rep.bytes b)
answer-get_source_qpn d parser req rep rtu a b c ip ip' t i cq cp cu at at' set addr id ne same
      local remote fresh fresh_id fresh_qpn =
    let key : CmFlowKey = (load32 req.bytes (ip + 12), iba_get cm_req_local_comm_id req.bytes a) in
    let flow = asked key (iba_get cm_req_local_qpn req.bytes a) in
    let flow' =
      accepted (iba_get cm_rep_local_comm_id rep.bytes b) (iba_get cm_rep_local_qpn rep.bytes b)
        flow in
    let (u, received, known, cell, locals, qpns) =
      req_received-opens d parser req a t ip cq at set (zero-unbound i) fresh in
    let (v, sent, holds, qpns') =
      rep_sent-binds d parser rep b u t.next flow ip' cp at' ne (rw locals fresh_id)
        (rw (addr, id) known) cell refl refl (rw (addr, id) refl) in
    let (w, received', query) =
      rtu_received-lists d parser rtu c v t.next flow' cu (rw same ne)
        (Holds-id v t.next flow' (sym same) holds) refl local remote (rw (qpns', qpns) fresh_qpn) in
    (
      w,
      process_all-three d parser req rep rtu from_net from_host from_net t u v w
          (process-req_received d parser req a ip t cq at ∙ received)
          (process-rep_sent d parser rep b u cp ∙ sent)
          (process-rtu_received d parser rtu c v cu ∙ received'),
      query,
    )
