-- ===== src/Tracker/Responder.antt =====
-- A connection that the network opens: REQ received, REP sent, RTU received.
use libconntrack_cm.Base.{
  ℕ, ◌+◌, ◌≡◌, ◌≢◌, refl, ◌∙◌, true, false, none, some, arith, ◌==◌, update, update₂,
}
use libconntrack_cm.Packet.{Dpdk, DynfieldOffsets, Mbuf, ok, mbuf_ip}
use libconntrack_cm.Packet.Memory.{load32}
use libconntrack_cm.Iba.{iba_get}
use libconntrack_cm.Cm.Req.{cm_req_local_comm_id, cm_req_local_qpn}
use libconntrack_cm.Cm.Rep.{cm_rep_local_comm_id, cm_rep_remote_comm_id, cm_rep_local_qpn}
use libconntrack_cm.Cm.Rtu.{cm_rtu_remote_comm_id}
use libconntrack_cm.Store.{CmState, FlowState, CmFlowKey, Ptr, Tracker, is_set, get_flow_key, lift}
use libconntrack_cm.Tracker.{on_established, get_source_qpn}
use libconntrack_cm.Tracker.Message.{from_src, from_dest}
use libconntrack_cm.Tracker.Host.{rep_sent, establish}
use libconntrack_cm.Tracker.Net.{
  req_received, on_req_received, receive_req, rtu_received, on_rtu_received,
}
use libconntrack_cm.Tracker.Dispatch.{
  from_host, from_net, process, process_packet, run_handler, handler_at,
}
use libconntrack_cm.Tracker.HandshakeFlow.{
  Carries, Holds, mad_header-Carries, get_flow-known, ==-refl,
}
use libconntrack_cm.Tracker.ResponderFlow.{
  found_remote, get_flow-remote, found_local, get_flow-local, asked, accepted, on_rep_sent-send_rep,
  with_rep, send_rep-known,
}

module _ (d : Dpdk) (parser : DynfieldOffsets) (m : Mbuf) (a : ℕ) where
  pub process-rep_sent :
      (t : Tracker)
      → Carries parser m a 0x13
      → process d parser m from_host t ≡ rep_sent d parser m t
  unfolding process process_packet lift run_handler handler_at
  process-rep_sent t c = rw (mad_header-Carries parser m a 0x13 c).1 refl

  pub process-rtu_received :
      (t : Tracker)
      → Carries parser m a 0x14
      → process d parser m from_net t ≡ rtu_received d parser m t
  unfolding process process_packet lift run_handler handler_at
  process-rtu_received t c = rw (mad_header-Carries parser m a 0x14 c).1 refl

  -- A REQ with a new address and ID opens a flow.
  pub req_received-opens :
      (t : Tracker) (ip : ℕ)
      → Carries parser m a 0x10
      → mbuf_ip d m ≡ ok ip
      → is_set (load32 m.bytes (ip + 12), iba_get cm_req_local_comm_id m.bytes a) ≡ true
      → t.local_map 0 ≡ none
      → t.remote_map (load32 m.bytes (ip + 12), iba_get cm_req_local_comm_id m.bytes a) ≡ none
      → (u : Tracker) × (req_received d parser m t ≡ ok (tt, u))
        × (u.remote_map (load32 m.bytes (ip + 12), iba_get cm_req_local_comm_id m.bytes a)
            ≡ some t.next)
        × (u.cells t.next
            ≡ asked
                (load32 m.bytes (ip + 12), iba_get cm_req_local_comm_id m.bytes a)
                (iba_get cm_req_local_qpn m.bytes a))
        × (u.local_map ≡ t.local_map)
        × (u.qpn_map ≡ t.qpn_map)
  unfolding req_received lift from_src on_req_received receive_req
  req_received-opens t ip c at set null fresh =
      let key : CmFlowKey = (load32 m.bytes (ip + 12), iba_get cm_req_local_comm_id m.bytes a) in
      let v = found_remote key t in
      (
        record v { cells = update v.cells t.next (asked key (iba_get cm_req_local_qpn m.bytes a)) },
        rw
            (
              (mad_header-Carries parser m a 0x10 c).0,
              at,
              get_flow-remote key t set null fresh,
              ==-refl t.next,
            )
            (rw (==-refl t.next) refl),
        ground arith,
        rw (==-refl t.next) refl,
        refl,
        refl,
      )

  -- The REP of the host binds its ID to that flow.
  pub rep_sent-binds :
      (t : Tracker) (p : Ptr) (s : FlowState) (ip : ℕ)
      → Carries parser m a 0x13
      → mbuf_ip d m ≡ ok ip
      → iba_get cm_rep_local_comm_id m.bytes a ≢ 0
      → t.local_map (iba_get cm_rep_local_comm_id m.bytes a) ≡ none
      → t.remote_map (load32 m.bytes (ip + 16), iba_get cm_rep_remote_comm_id m.bytes a) ≡ some p
      → t.cells p ≡ s
      → s.state ≡ CmState.req_rcvd
      → s.local_id ≡ 0
      → s.remote_id ≡ (load32 m.bytes (ip + 16), iba_get cm_rep_remote_comm_id m.bytes a)
      → (u : Tracker) × (rep_sent d parser m t ≡ ok (tt, u))
        × Holds u (iba_get cm_rep_local_comm_id m.bytes a) p (
            accepted
              (iba_get cm_rep_local_comm_id m.bytes a)
              (iba_get cm_rep_local_qpn m.bytes a)
              s)
        × (u.qpn_map ≡ t.qpn_map)
  unfolding rep_sent lift from_dest
  rep_sent-binds t p s ip c at ne fresh known cell waits unbound bound =
      let id = iba_get cm_rep_local_comm_id m.bytes a in
      let key : CmFlowKey = (load32 m.bytes (ip + 16), iba_get cm_rep_remote_comm_id m.bytes a) in
      let v = found_local id p t in
      let bound_flow = record s { local_id = id } in
      let q = iba_get cm_rep_local_qpn m.bytes a in
      let v' = record v { cells = update t.cells p bound_flow } in
      (
        with_rep p q bound_flow v',
        rw
            (
              (mad_header-Carries parser m a 0x13 c).0,
              at,
              get_flow-local id key p t ne fresh known (rw cell unbound),
              ==-refl p,
              cell,
            )
            (on_rep_sent-send_rep s.state p id key q v' waits
              ∙ send_rep-known p id key q bound_flow v' (rw (==-refl id) refl) known
                  (rw (==-refl p) refl) refl bound),
        (rw (==-refl id) refl, rw (==-refl p) refl),
        refl,
      )

  -- The RTU that answers it puts the flow in the QPN table.
  pub rtu_received-lists :
      (t : Tracker) (p : Ptr) (s : FlowState)
      → Carries parser m a 0x14
      → iba_get cm_rtu_remote_comm_id m.bytes a ≢ 0
      → Holds t (iba_get cm_rtu_remote_comm_id m.bytes a) p s
      → s.state ≡ CmState.rep_sent
      → s.local_qpn ≢ 0
      → s.remote_qpn ≢ 0
      → t.qpn_map (get_flow_key s) ≡ none
      → (u : Tracker) × (rtu_received d parser m t ≡ ok (tt, u))
        × (get_source_qpn u (get_flow_key s) ≡ s.local_qpn)
  unfolding rtu_received lift on_rtu_received establish on_established get_source_qpn
  rtu_received-lists t p s c ne (known, cell) ready local remote fresh =
      let id = iba_get cm_rtu_remote_comm_id m.bytes a in
      let local0 : (s.local_qpn == 0) ≡ false = ground arith in
      let remote0 : (s.remote_qpn == 0) ≡ false = ground arith in
      let done = record s { state = CmState.established } in
      (
        record t {
          cells = update (update t.cells p done) p (record done { in_qpn_map = true });
          qpn_map = update₂ t.qpn_map (get_flow_key s) (some s.local_qpn);
        },
        rw ((mad_header-Carries parser m a 0x14 c).0, get_flow-known id p t ne known, cell, ready)
            (rw (cell, ==-refl p, local0, remote0, fresh) refl),
        ground arith,
      )
