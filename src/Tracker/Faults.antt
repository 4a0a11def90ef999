-- ===== src/Tracker/Faults.antt =====
-- Packets from the network that make an assertion of the tracker fail.
use libconntrack_cm.Base.{
  ℕ, ◌+◌, ◌≡◌, ◌≢◌, ◌⊎◌, inl, inr, refl, ◌∙◌, true, false, some, arith, ◌==◌,
}
use libconntrack_cm.Packet.{Dpdk, DynfieldOffsets, Mbuf, ok, stop, assertion, mbuf_ip}
use libconntrack_cm.Packet.Memory.{load32}
use libconntrack_cm.Iba.{iba_get}
use libconntrack_cm.Cm.Req.{cm_req_local_comm_id, cm_req_local_qpn}
use libconntrack_cm.Store.{CmState, CmFlowKey, Ptr, Tracker, is_set, lift, check}
use libconntrack_cm.Tracker.{get_flow, or_add}
use libconntrack_cm.Tracker.Message.{from_src}
use libconntrack_cm.Tracker.Net.{req_received, on_req_received}
use libconntrack_cm.Tracker.Dispatch.{from_net, process, process_packet, run_handler, handler_at}
use libconntrack_cm.Tracker.HandshakeFlow.{Carries, mad_header-Carries}

module _ (d : Dpdk) (parser : DynfieldOffsets) (m : Mbuf) (a ip : ℕ) (t : Tracker)
    (c : Carries parser m a 0x10) (at : mbuf_ip d m ≡ ok ip) where
  pub process-req_received : process d parser m from_net t ≡ req_received d parser m t
  unfolding process process_packet lift run_handler handler_at
  process-req_received = rw (mad_header-Carries parser m a 0x10 c).1 refl

  abbrev key : CmFlowKey
  key = (load32 m.bytes (ip + 12), iba_get cm_req_local_comm_id m.bytes a)

  unset-stop : is_set key ≡ false → req_received d parser m t ≡ stop assertion
  unfolding req_received lift from_src get_flow check
  unset-stop unset = rw ((mad_header-Carries parser m a 0x10 c).0, at, unset) refl

  other_qpn-stop :
      (p : Ptr)
      → is_set key ≡ true
      → t.remote_map key ≡ some p
      → (t.cells p).state ≡ CmState.req_rcvd
      → (t.cells p).remote_qpn ≢ iba_get cm_req_local_qpn m.bytes a
      → req_received d parser m t ≡ stop assertion
  unfolding req_received lift from_src get_flow check or_add on_req_received
  other_qpn-stop p set known state ne =
      let other : ((t.cells p).remote_qpn == iba_get cm_req_local_qpn m.bytes a) ≡ false =
        ground arith in
      rw ((mad_header-Carries parser m a 0x10 c).0, at, set, known, state, other) refl

  -- A REQ from the network that repeats an earlier one with another QP number.
  abbrev Repeats : Type 0
  Repeats =
      (p : Ptr) × (is_set key ≡ true)
      × (t.remote_map key ≡ some p)
      × ((t.cells p).state ≡ CmState.req_rcvd)
      × ((t.cells p).remote_qpn ≢ iba_get cm_req_local_qpn m.bytes a)

  -- A REQ from the network makes an assertion fail, whatever else the tracker has seen, if its source
  -- address or its communication ID is 0, or if a REQ with the same two was received before and its flow still
  -- waits for the host's answer, with another QP number.
  pub req_received-stop :
      (is_set key ≡ false) ⊎ Repeats → process d parser m from_net t ≡ stop assertion
  req_received-stop (inl unset) = process-req_received ∙ unset-stop unset
  req_received-stop (inr (p, set, known, state, ne)) =
      process-req_received ∙ other_qpn-stop p set known state ne
