-- ===== src/Tracker/Teardown.antt =====
-- The end of a connection: the DREP that answers the host's DREQ.
use libconntrack_cm.Base.{
  ℕ, ◌+◌, ◌≡◌, ◌≢◌, ◌⊎◌, inl, inr, refl, ◌∙◌, true, false, none, some, arith, ◌==◌, update, update₂,
}
use libconntrack_cm.Packet.{Dpdk, DynfieldOffsets, Mbuf, ok, mbuf_ip}
use libconntrack_cm.Packet.Memory.{load32}
use libconntrack_cm.Iba.{iba_get}
use libconntrack_cm.Cm.Drep.{cm_drep_local_comm_id, cm_drep_remote_comm_id}
use libconntrack_cm.Store.{CmState, CmFlowKey, FlowState, Ptr, Tracker, get_flow_key, lift, check}
use libconntrack_cm.Tracker.{disconnect, on_disconnected, erase_flow, erase_local, get_source_qpn}
use libconntrack_cm.Tracker.Message.{from_src}
use libconntrack_cm.Tracker.Host.{on_drep}
use libconntrack_cm.Tracker.Net.{drep_received}
use libconntrack_cm.Tracker.Dispatch.{from_net, process, process_packet, run_handler, handler_at}
use libconntrack_cm.Tracker.HandshakeFlow.{
  Carries, Holds, mad_header-Carries, get_flow-known, ==-refl,
}

-- A flow that is in the QPN table.
abbrev pub InTable : Tracker → FlowState → Type 0
InTable t s =
    (s.in_qpn_map ≡ true)
    × (s.local_qpn ≢ 0)
    × (s.remote_qpn ≢ 0)
    × (t.qpn_map (get_flow_key s) ≡ some s.local_qpn)

abbrev pub unlisted : Tracker → Ptr → FlowState → Tracker
unlisted t p s = record t {
  qpn_map = update₂ t.qpn_map (get_flow_key s) none;
  cells = update t.cells p (record s { in_qpn_map = false });
}

disconnect-InTable :
    (t : Tracker) (p : Ptr) (s : FlowState)
    → t.cells p ≡ s
    → InTable t s
    → disconnect p t ≡ ok (tt, unlisted t p s)
unfolding disconnect on_disconnected
disconnect-InTable t p s cell (flag, local, remote, entry) =
    let local0 : (s.local_qpn == 0) ≡ false = ground arith in
    let remote0 : (s.remote_qpn == 0) ≡ false = ground arith in
    rw (cell, flag, cell, local0, remote0, entry) refl

-- The two maps without the IDs.
abbrev pub erased : ℕ → CmFlowKey → Tracker → Tracker
erased local_id remote_id t = record t {
  local_map = update t.local_map local_id none;
  remote_map = update₂ t.remote_map remote_id none;
}

pub erase_flow-InTable :
    (local_id : ℕ) (key : CmFlowKey) (t : Tracker) (p : Ptr) (s : FlowState)
    → local_id ≢ 0
    → Holds t local_id p s
    → InTable t s
    → erase_flow local_id key t ≡ ok (tt, erased local_id key (unlisted t p s))
unfolding erase_flow erase_local check
erase_flow-InTable local_id key t p s ne (known, cell) listed =
    let nz : (local_id == 0) ≡ false = ground arith in
    rw (nz, known, disconnect-InTable t p s cell listed) refl

-- The states in which a DREP ends the flow.
abbrev pub IsClosing : CmState → Type 0
IsClosing c = (c ≡ CmState.dreq_sent) ⊎ (c ≡ CmState.dreq_rcvd)

on_drep-IsClosing :
    (c : CmState) (local_id : ℕ) (key : CmFlowKey) (t : Tracker)
    → IsClosing c
    → on_drep c local_id key t ≡ erase_flow local_id key t
unfolding on_drep
on_drep-IsClosing c local_id key t (inl e) = rw e refl
on_drep-IsClosing c local_id key t (inr e) = rw e refl

module _ (d : Dpdk) (parser : DynfieldOffsets) (m : Mbuf) (a : ℕ) where
  pub process-drep_received :
      (t : Tracker)
      → Carries parser m a 0x16
      → process d parser m from_net t ≡ drep_received d parser m t
  unfolding process process_packet lift run_handler handler_at
  process-drep_received t c = rw (mad_header-Carries parser m a 0x16 c).1 refl

  pub drep_received-IsClosing :
      (t : Tracker) (p : Ptr) (s : FlowState) (ip : ℕ)
      → Carries parser m a 0x16
      → mbuf_ip d m ≡ ok ip
      → iba_get cm_drep_remote_comm_id m.bytes a ≢ 0
      → Holds t (iba_get cm_drep_remote_comm_id m.bytes a) p s
      → IsClosing s.state
      → drep_received d parser m t
        ≡ erase_flow
            (iba_get cm_drep_remote_comm_id m.bytes a)
            (load32 m.bytes (ip + 12), iba_get cm_drep_local_comm_id m.bytes a)
            t
  unfolding drep_received lift from_src
  drep_received-IsClosing t p s ip c at ne (known, cell) closing =
      rw
        (
          (mad_header-Carries parser m a 0x16 c).0,
          at,
          get_flow-known (iba_get cm_drep_remote_comm_id m.bytes a) p t ne known,
          cell,
        )
        (on_drep-IsClosing s.state _ _ t closing)

  -- A DREP comes from the network for a flow that is in the QPN table and that a DREQ, sent or received, is
  -- closing; the local ID that it names is not 0. It is processed without a failure, after which the query
  -- for the flow's address and remote QP number gives 0, and the local ID is free.
  pub drep-get_source_qpn :
      (t : Tracker) (p : Ptr) (s : FlowState) (ip : ℕ)
      → Carries parser m a 0x16
      → mbuf_ip d m ≡ ok ip
      → iba_get cm_drep_remote_comm_id m.bytes a ≢ 0
      → Holds t (iba_get cm_drep_remote_comm_id m.bytes a) p s
      → IsClosing s.state
      → InTable t s
      → (u : Tracker) × (process d parser m from_net t ≡ ok (tt, u))
        × (get_source_qpn u (get_flow_key s) ≡ 0)
        × (u.local_map (iba_get cm_drep_remote_comm_id m.bytes a) ≡ none)
  unfolding get_source_qpn
  drep-get_source_qpn t p s ip c at ne holds closing listed =
      let id = iba_get cm_drep_remote_comm_id m.bytes a in
      let key : CmFlowKey = (load32 m.bytes (ip + 12), iba_get cm_drep_local_comm_id m.bytes a) in
      (
        erased id key (unlisted t p s),
        process-drep_received t c
            ∙ drep_received-IsClosing t p s ip c at ne holds closing
            ∙ erase_flow-InTable id key t p s ne holds listed,
        ground arith,
        rw (==-refl id) refl,
      )
