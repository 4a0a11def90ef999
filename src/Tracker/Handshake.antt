-- ===== src/Tracker/Handshake.antt =====
-- A connection that the host opens: REQ sent, REP received, RTU sent.
use libconntrack_cm.Base.{
  ℕ, ◌+◌, ◌≡◌, ◌≢◌, refl, true, false, none, some, arith, ◌==◌, update, update₂,
}
use libconntrack_cm.Packet.{Dpdk, DynfieldOffsets, Mbuf, ok, mbuf_ip}
use libconntrack_cm.Packet.Memory.{load32}
use libconntrack_cm.Iba.{iba_get}
use libconntrack_cm.Cm.Req.{cm_req_local_comm_id, cm_req_local_qpn}
use libconntrack_cm.Cm.Rep.{cm_rep_local_comm_id, cm_rep_remote_comm_id, cm_rep_local_qpn}
use libconntrack_cm.Cm.Rtu.{cm_rtu_local_comm_id}
use libconntrack_cm.Store.{
  CmState, FlowState, CmFlowKey, Ptr, Tracker, null_key, is_set, get_flow_key, lift, check,
}
use libconntrack_cm.Tracker.{
  bind_local, bind_remote, bind_flow, add_found, add_new_flow, on_established,
}
use libconntrack_cm.Tracker.Message.{from_src}
use libconntrack_cm.Tracker.Host.{on_req_sent, req_sent, on_rtu_sent, establish, rtu_sent}
use libconntrack_cm.Tracker.Net.{on_rep_received, receive_rep, rep_received}
use libconntrack_cm.Tracker.Dispatch.{
  from_host, from_net, process, process_packet, run_handler, handler_at,
}
use libconntrack_cm.Tracker.HandshakeFlow.{
  Carries, mad_header-Carries, opened, answered, ==-refl, found_new, get_flow-new, get_flow-known,
  listed, bind_remote-binds, Holds,
}

module _ (d : Dpdk) (parser : DynfieldOffsets) (m : Mbuf) (a : ℕ) where
  pub process-req_sent :
      (t : Tracker)
      → Carries parser m a 0x10
      → process d parser m from_host t ≡ req_sent d parser m t
  unfolding process process_packet lift run_handler handler_at
  process-req_sent t c = rw (mad_header-Carries parser m a 0x10 c).1 refl

  pub process-rep_received :
      (t : Tracker)
      → Carries parser m a 0x13
      → process d parser m from_net t ≡ rep_received d parser m t
  unfolding process process_packet lift run_handler handler_at
  process-rep_received t c = rw (mad_header-Carries parser m a 0x13 c).1 refl

  pub process-rtu_sent :
      (t : Tracker)
      → Carries parser m a 0x14
      → process d parser m from_host t ≡ rtu_sent d parser m t
  unfolding process process_packet lift run_handler handler_at
  process-rtu_sent t c = rw (mad_header-Carries parser m a 0x14 c).1 refl

  -- A REQ with a new ID opens a flow.
  pub req_sent-opens :
      (t : Tracker)
      → Carries parser m a 0x10
      → iba_get cm_req_local_comm_id m.bytes a ≢ 0
      → t.local_map (iba_get cm_req_local_comm_id m.bytes a) ≡ none
      → t.remote_map null_key ≡ none
      → (u : Tracker) × (req_sent d parser m t ≡ ok (tt, u))
        × Holds u
            (iba_get cm_req_local_comm_id m.bytes a)
            t.next
            (opened (iba_get cm_req_local_comm_id m.bytes a) (iba_get cm_req_local_qpn m.bytes a))
        × (u.local_map ≡ update t.local_map (iba_get cm_req_local_comm_id m.bytes a) (some t.next))
        × (u.remote_map ≡ t.remote_map)
        × (u.qpn_map ≡ t.qpn_map)
  unfolding req_sent lift on_req_sent
  req_sent-opens t c ne fresh null =
      let id = iba_get cm_req_local_comm_id m.bytes a in
      let v = found_new id t in
      (
        record v { cells = update v.cells t.next (opened id (iba_get cm_req_local_qpn m.bytes a)) },
        rw
            (
              (mad_header-Carries parser m a 0x10 c).0,
              get_flow-new id t ne fresh null,
              ==-refl t.next,
            )
            (rw (==-refl t.next) refl),
        (rw (==-refl id) refl, rw (==-refl t.next) refl),
        refl,
        refl,
        refl,
      )

  -- A REP for a flow that waits for it binds the remote ID.
  pub rep_received-binds :
      (t : Tracker) (p : Ptr) (s : FlowState) (ip : ℕ)
      → Carries parser m a 0x13
      → mbuf_ip d m ≡ ok ip
      → iba_get cm_rep_remote_comm_id m.bytes a ≢ 0
      → Holds t (iba_get cm_rep_remote_comm_id m.bytes a) p s
      → s.state ≡ CmState.req_sent
      → s.remote_id ≡ null_key
      → is_set (load32 m.bytes (ip + 12), iba_get cm_rep_local_comm_id m.bytes a) ≡ true
      → t.remote_map (load32 m.bytes (ip + 12), iba_get cm_rep_local_comm_id m.bytes a) ≡ none
      → (u : Tracker) × (rep_received d parser m t ≡ ok (tt, u))
        × Holds u (iba_get cm_rep_remote_comm_id m.bytes a) p (
            answered
              (load32 m.bytes (ip + 12), iba_get cm_rep_local_comm_id m.bytes a)
              (iba_get cm_rep_local_qpn m.bytes a)
              s)
        × (u.local_map ≡ t.local_map)
        × (u.remote_map
            ≡ update₂ t.remote_map
                (load32 m.bytes (ip + 12), iba_get cm_rep_local_comm_id m.bytes a)
                (some p))
        × (u.qpn_map ≡ t.qpn_map)
  unfolding rep_received lift on_rep_received receive_rep from_src add_new_flow add_found bind_flow
      bind_local bind_remote check
  rep_received-binds t p s ip c at ne (known, cell) waits unbound set fresh =
      let id = iba_get cm_rep_remote_comm_id m.bytes a in
      let key : CmFlowKey = (load32 m.bytes (ip + 12), iba_get cm_rep_local_comm_id m.bytes a) in
      let q = iba_get cm_rep_local_qpn m.bytes a in
      let received = record s { state = CmState.rep_rcvd; remote_qpn = q } in
      let cells = update t.cells p received in
      (
        record t {
          cells = update cells p (record received { remote_id = key });
          remote_map = update₂ t.remote_map key (some p);
        },
        rw
            (
              (mad_header-Carries parser m a 0x13 c).0,
              at,
              get_flow-known id p t ne known,
              cell,
              waits,
              cell,
              known,
              fresh,
              bind_remote-binds key p (record t { cells = cells }) set
                  (rw (==-refl p, unbound) refl),
            )
            (rw (==-refl p) refl),
        (known, rw (==-refl p) refl),
        refl,
        refl,
        refl,
      )

  -- An RTU for a flow that can send one puts it in the QPN table.
  pub rtu_sent-lists :
      (t : Tracker) (p : Ptr) (s : FlowState)
      → Carries parser m a 0x14
      → iba_get cm_rtu_local_comm_id m.bytes a ≢ 0
      → Holds t (iba_get cm_rtu_local_comm_id m.bytes a) p s
      → s.state ≡ CmState.rep_rcvd
      → s.local_qpn ≢ 0
      → s.remote_qpn ≢ 0
      → t.qpn_map (get_flow_key s) ≡ none
      → (u : Tracker) × (rtu_sent d parser m t ≡ ok (tt, u))
        × Holds u (iba_get cm_rtu_local_comm_id m.bytes a) p (listed s)
        × (u.local_map ≡ t.local_map)
        × (u.remote_map ≡ t.remote_map)
        × (u.qpn_map ≡ update₂ t.qpn_map (get_flow_key s) (some s.local_qpn))
  unfolding rtu_sent lift on_rtu_sent establish on_established
  rtu_sent-lists t p s c ne (known, cell) ready local remote fresh =
      let id = iba_get cm_rtu_local_comm_id m.bytes a in
      let local0 : (s.local_qpn == 0) ≡ false = ground arith in
      let remote0 : (s.remote_qpn == 0) ≡ false = ground arith in
      let done = record s { state = CmState.established } in
      let cells = update t.cells p done in
      (
        record t {
          cells = update cells p (record done { in_qpn_map = true });
          qpn_map = update₂ t.qpn_map (get_flow_key s) (some s.local_qpn);
        },
        rw ((mad_header-Carries parser m a 0x14 c).0, get_flow-known id p t ne known, cell, ready)
            (rw (cell, ==-refl p, local0, remote0, fresh) refl),
        (known, rw (==-refl p) refl),
        refl,
        refl,
        refl,
      )
