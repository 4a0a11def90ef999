-- ===== src/Tracker/Connect.antt =====
-- The three messages of a connection that the host opens, one after the other.
use libconntrack_cm.Base.{
  ℕ, ◌+◌, ◌≡◌, ◌≢◌, refl, sym, subst, ◌∙◌, true, none, some, [], ◌∷◌, Option-cases, inl, inr,
  update, update₂, arith,
}
use libconntrack_cm.Packet.{Dpdk, DynfieldOffsets, Mbuf, ok, mbuf_ip}
use libconntrack_cm.Packet.Memory.{load32}
use libconntrack_cm.Iba.{iba_get}
use libconntrack_cm.Cm.Req.{cm_req_local_comm_id, cm_req_local_qpn}
use libconntrack_cm.Cm.Rep.{cm_rep_local_comm_id, cm_rep_remote_comm_id, cm_rep_local_qpn}
use libconntrack_cm.Cm.Rtu.{cm_rtu_local_comm_id}
use libconntrack_cm.Store.{CmFlowKey, FlowState, Ptr, Tracker, null_key, is_set}
use libconntrack_cm.Tracker.{get_source_qpn}
use libconntrack_cm.Tracker.Dispatch.{Direction, from_host, from_net, process, process_all}
use libconntrack_cm.Tracker.Invariant.{Inv}
use libconntrack_cm.Tracker.Handshake.{
  process-req_sent, process-rep_received, process-rtu_sent, req_sent-opens, rep_received-binds,
  rtu_sent-lists,
}
use libconntrack_cm.Tracker.HandshakeFlow.{Carries, Holds, opened, answered, listed}

null_key-unbound : {t : Tracker} → Inv t → t.remote_map null_key ≡ none
null_key-unbound {t} i = elim (Option-cases (t.remote_map null_key)) [
  | inl e ↦ e
  | inr (p, e) ↦ let (set, lt, id) = i.remote_ok null_key p e in cc
]

pub Holds-id :
    (t : Tracker) {i j : ℕ} (p : Ptr) (s : FlowState) → i ≡ j → Holds t i p s → Holds t j p s
Holds-id t p s e = subst (λ k. Holds t k p s) e

module _ (d : Dpdk) (parser : DynfieldOffsets) where
  pub process_all-three :
      (m n o : Mbuf) (a b c : Direction) (t u v w : Tracker)
      → process d parser m a t ≡ ok (tt, u)
      → process d parser n b u ≡ ok (tt, v)
      → process d parser o c v ≡ ok (tt, w)
      → process_all d parser ((m, a) ∷ (n, b) ∷ (o, c) ∷ []) t ≡ ok (tt, w)
  unfolding process_all
  process_all-three m n o a b c t u v w e f g = rw (e, f, g) refl

module _ (d : Dpdk) (parser : DynfieldOffsets) (req rep rtu : Mbuf) (a b c ip : ℕ) (t : Tracker)
    (i : Inv t) (cq : Carries parser req a 0x10) (cp : Carries parser rep b 0x13)
    (cu : Carries parser rtu c 0x14) (at : mbuf_ip d rep ≡ ok ip)
    (ne : iba_get cm_req_local_comm_id req.bytes a ≢ 0)
    (same : iba_get cm_rep_remote_comm_id rep.bytes b ≡ iba_get cm_req_local_comm_id req.bytes a)
    (same' : iba_get cm_rtu_local_comm_id rtu.bytes c ≡ iba_get cm_req_local_comm_id req.bytes a)
    (set : is_set (load32 rep.bytes (ip + 12), iba_get cm_rep_local_comm_id rep.bytes b) ≡ true)
    (local : iba_get cm_req_local_qpn req.bytes a ≢ 0)
    (remote : iba_get cm_rep_local_qpn rep.bytes b ≢ 0)
    (fresh_id : t.local_map (iba_get cm_req_local_comm_id req.bytes a) ≡ none)
    (fresh_key : t.remote_map (load32 rep.bytes (ip + 12), iba_get cm_rep_local_comm_id rep.bytes b)
      ≡ none)
    (fresh_qpn : t.qpn_map (load32 rep.bytes (ip + 12), iba_get cm_rep_local_qpn rep.bytes b)
      ≡ none) where
  abbrev flow : FlowState
  flow = opened (iba_get cm_req_local_comm_id req.bytes a) (iba_get cm_req_local_qpn req.bytes a)

  abbrev key : CmFlowKey
  key = (load32 rep.bytes (ip + 12), iba_get cm_rep_local_comm_id rep.bytes b)

  -- The flow with both IDs and both QP numbers.
  abbrev pub connected : FlowState
  connected = answered key (iba_get cm_rep_local_qpn rep.bytes b) flow

  -- The tracker after the three messages.
  pub connects :
      (u : Tracker) × (process_all d parser
          ((req, from_host) ∷ (rep, from_net) ∷ (rtu, from_host) ∷ [])
          t
        ≡ ok (tt, u))
      × Holds u (iba_get cm_req_local_comm_id req.bytes a) t.next (listed connected)
      × (u.local_map ≡ update t.local_map (iba_get cm_req_local_comm_id req.bytes a) (some t.next))
      × (u.remote_map ≡ update₂ t.remote_map key (some t.next))
      × (u.qpn_map
          ≡ update₂ t.qpn_map
              (load32 rep.bytes (ip + 12), iba_get cm_rep_local_qpn rep.bytes b)
              (some (iba_get cm_req_local_qpn req.bytes a)))
  connects =
      let (u, sent, holds, locals, remotes, qpns) =
        req_sent-opens d parser req a t cq ne fresh_id (null_key-unbound i) in
      let (v, received, holds', locals', remotes', qpns') =
        rep_received-binds d parser rep b u t.next flow ip cp at (rw same ne)
          (Holds-id u t.next flow (sym same) holds) refl refl set (rw remotes fresh_key) in
      let (w, sent', holds'', locals'', remotes'', qpns'') =
        rtu_sent-lists d parser rtu c v t.next connected cu (rw same' ne)
          (Holds-id v t.next connected (same ∙ sym same') holds') refl local remote
          (rw (qpns', qpns) fresh_qpn) in
      (
        w,
        process_all-three d parser req rep rtu from_host from_net from_host t u v w
            (process-req_sent d parser req a t cq ∙ sent)
            (process-rep_received d parser rep b u cp ∙ received)
            (process-rtu_sent d parser rtu c v cu ∙ sent'),
        Holds-id w t.next (listed connected) same' holds'',
        locals'' ∙ locals' ∙ locals,
        remotes'' ∙ (rw remotes' (rw remotes refl)),
        qpns'' ∙ (rw (qpns', qpns) refl),
      )

  -- The tracker satisfies its invariant. The host sends a REQ with a local ID that is not in use; a REP for
  -- it comes from the network, with a remote ID that is not in use from its source address, and neither of
  -- the two is 0; the host sends the RTU. Both QP numbers are not 0, and the QPN table has no entry for the
  -- address and the remote QP number yet. Then the three packets are processed without a failure, and a
  -- query for that address and remote QP number gives the host's QP number.
  pub handshake-get_source_qpn :
      (u : Tracker) × (process_all d parser
          ((req, from_host) ∷ (rep, from_net) ∷ (rtu, from_host) ∷ [])
          t
        ≡ ok (tt, u))
      × (get_source_qpn u (load32 rep.bytes (ip + 12), iba_get cm_rep_local_qpn rep.bytes b)
          ≡ iba_get cm_req_local_qpn req.bytes a)
  unfolding get_source_qpn
  handshake-get_source_qpn =
      let (u, run, holds, locals, remotes, qpns) = connects in
      (u, run, rw (qpns, get_source_qpn) (ground arith))
