-- ===== src/Tracker/Reject.antt =====
-- A REJ from the network, for a connection that is in the QPN table.
use libconntrack_cm.Base.{
  ℕ, ◌+◌, ◌≡◌, ◌≢◌, ◌⊎◌, inl, inr, refl, ◌∙◌, Bool, true, false, none, some, arith, ◌==◌,
  if◌then◌else◌,
}
use libconntrack_cm.Packet.{Dpdk, DynfieldOffsets, Mbuf, ok, mbuf_ip}
use libconntrack_cm.Packet.Memory.{load32}
use libconntrack_cm.Iba.{iba_get}
use libconntrack_cm.Cm.Rej.{cm_rej_local_comm_id, cm_rej_remote_comm_id}
use libconntrack_cm.Store.{CmState, CmFlowKey, FlowState, Ptr, Tracker, get_flow_key, lift, check}
use libconntrack_cm.Tracker.{get_flow, or_add, erase_flow, get_source_qpn}
use libconntrack_cm.Tracker.Message.{from_src}
use libconntrack_cm.Tracker.Net.{rej_received, on_rej_received}
use libconntrack_cm.Tracker.Dispatch.{from_net, process, process_packet, run_handler, handler_at}
use libconntrack_cm.Tracker.HandshakeFlow.{Carries, Holds, mad_header-Carries, ==-refl}
use libconntrack_cm.Tracker.Teardown.{InTable, unlisted, erased, erase_flow-InTable}

-- The states in which a REJ from the network ends the flow.
abbrev pub ends_flow : CmState → Bool
ends_flow CmState.req_rcvd = false
ends_flow CmState.dreq_rcvd = false
ends_flow CmState.timewait = false
ends_flow _ = true

on_rej_received-ends_flow :
    (c : CmState) (local_id : ℕ) (key : CmFlowKey) (t : Tracker)
    → ((ends_flow c ≡ true) × (on_rej_received c local_id key t ≡ erase_flow local_id key t))
      ⊎ ((ends_flow c ≡ false) × (on_rej_received c local_id key t ≡ ok (tt, t)))
unfolding on_rej_received
on_rej_received-ends_flow CmState.idle local_id key t = inl (refl, refl)
on_rej_received-ends_flow CmState.req_sent local_id key t = inl (refl, refl)
on_rej_received-ends_flow CmState.req_rcvd local_id key t = inr (refl, refl)
on_rej_received-ends_flow CmState.mra_req_rcvd local_id key t = inl (refl, refl)
on_rej_received-ends_flow CmState.mra_req_sent local_id key t = inl (refl, refl)
on_rej_received-ends_flow CmState.mra_rep_sent local_id key t = inl (refl, refl)
on_rej_received-ends_flow CmState.mra_rep_rcvd local_id key t = inl (refl, refl)
on_rej_received-ends_flow CmState.rep_sent local_id key t = inl (refl, refl)
on_rej_received-ends_flow CmState.rep_rcvd local_id key t = inl (refl, refl)
on_rej_received-ends_flow CmState.established local_id key t = inl (refl, refl)
on_rej_received-ends_flow CmState.dreq_sent local_id key t = inl (refl, refl)
on_rej_received-ends_flow CmState.dreq_rcvd local_id key t = inr (refl, refl)
on_rej_received-ends_flow CmState.timewait local_id key t = inr (refl, refl)

get_flow-by_local :
    (local_id : ℕ) (key : CmFlowKey) (p : Ptr) (t : Tracker)
    → local_id ≢ 0
    → t.local_map local_id ≡ some p
    → get_flow local_id key t ≡ ok (p, t)
unfolding get_flow or_add check
get_flow-by_local local_id key p t ne known =
    let nz : (local_id == 0) ≡ false = ground arith in rw (nz, known) refl

get_source_qpn-InTable :
    (t : Tracker) (s : FlowState) → InTable t s → get_source_qpn t (get_flow_key s) ≡ s.local_qpn
unfolding get_source_qpn
get_source_qpn-InTable t s listed = rw (get_source_qpn, listed.3) refl

module _ (d : Dpdk) (parser : DynfieldOffsets) (m : Mbuf) (a : ℕ) where
  process-rej_received :
      (t : Tracker)
      → Carries parser m a 0x12
      → process d parser m from_net t ≡ rej_received d parser m t
  unfolding process process_packet lift run_handler handler_at
  process-rej_received t c = rw (mad_header-Carries parser m a 0x12 c).1 refl

  rej_received-Holds :
      (t : Tracker) (p : Ptr) (s : FlowState) (ip : ℕ)
      → Carries parser m a 0x12
      → mbuf_ip d m ≡ ok ip
      → iba_get cm_rej_remote_comm_id m.bytes a ≢ 0
      → Holds t (iba_get cm_rej_remote_comm_id m.bytes a) p s
      → rej_received d parser m t
        ≡ on_rej_received s.state
            (iba_get cm_rej_remote_comm_id m.bytes a)
            (load32 m.bytes (ip + 12), iba_get cm_rej_local_comm_id m.bytes a)
            t
  unfolding rej_received lift from_src
  rej_received-Holds t p s ip c at ne (known, cell) =
      let id = iba_get cm_rej_remote_comm_id m.bytes a in
      let key : CmFlowKey = (load32 m.bytes (ip + 12), iba_get cm_rej_local_comm_id m.bytes a) in
      rw ((mad_header-Carries parser m a 0x12 c).0, at, get_flow-by_local id key p t ne known, cell)
        refl

  -- A REJ comes from the network for a flow that is in the QPN table; the local ID that it names is not 0. It
  -- is processed without a failure. If the flow's REQ or DREQ was received last, or if it is in the time wait
  -- state, the query for its remote side still gives its QP number and its local ID is still bound to it; in
  -- every other state the query then gives 0 and the local ID is free.
  pub rej-get_source_qpn :
      (t : Tracker) (p : Ptr) (s : FlowState) (ip : ℕ)
      → Carries parser m a 0x12
      → mbuf_ip d m ≡ ok ip
      → iba_get cm_rej_remote_comm_id m.bytes a ≢ 0
      → Holds t (iba_get cm_rej_remote_comm_id m.bytes a) p s
      → InTable t s
      → (u : Tracker) × (process d parser m from_net t ≡ ok (tt, u))
        × (get_source_qpn u (get_flow_key s) ≡ (if ends_flow s.state then 0 else s.local_qpn))
        × (u.local_map (iba_get cm_rej_remote_comm_id m.bytes a)
            ≡ (if ends_flow s.state then none else some p))
  unfolding get_source_qpn
  rej-get_source_qpn t p s ip c at ne holds listed =
      let id = iba_get cm_rej_remote_comm_id m.bytes a in
      let key : CmFlowKey = (load32 m.bytes (ip + 12), iba_get cm_rej_local_comm_id m.bytes a) in
      let run = process-rej_received t c ∙ rej_received-Holds t p s ip c at ne holds in
      elim (on_rej_received-ends_flow s.state id key t) [
        | inl (e, does) ↦ (
          erased id key (unlisted t p s),
          run ∙ does ∙ erase_flow-InTable id key t p s ne holds listed,
          rw e (ground arith),
          rw (e, ==-refl id) refl,
        )
        | inr (e, does) ↦
            (t, run ∙ does, rw e (get_source_qpn-InTable t s listed), rw (e, holds.0) refl)
      ]
