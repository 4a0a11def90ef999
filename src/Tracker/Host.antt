-- ===== src/Tracker/Host.antt =====
-- The handlers of src/cm_connection_tracker.cpp for messages that the host sends. Each handler looks
-- the flow up and switches on its state; the `switch` of a handler is the function `on_…` above it.
use libconntrack_cm.Base.{ℕ}
use libconntrack_cm.Packet.{Dpdk, DynfieldOffsets, Mbuf}
use libconntrack_cm.Iba.{iba_get}
use libconntrack_cm.Cm.Req.{cm_req_local_comm_id, cm_req_local_qpn}
use libconntrack_cm.Cm.Rej.{cm_rej_local_comm_id, cm_rej_remote_comm_id}
use libconntrack_cm.Cm.Rep.{cm_rep_local_comm_id, cm_rep_remote_comm_id, cm_rep_local_qpn}
use libconntrack_cm.Cm.Rtu.{cm_rtu_local_comm_id}
use libconntrack_cm.Cm.Dreq.{cm_dreq_local_comm_id}
use libconntrack_cm.Cm.Drep.{cm_drep_local_comm_id, cm_drep_remote_comm_id}
use libconntrack_cm.Store.{
  CmState, CmFlowKey, null_key, Ptr, M, pure, ◌>>=◌, ◌>>◌, lift, load, store,
}
use libconntrack_cm.Tracker.{add_new_flow, get_flow, on_established, erase_flow}
use libconntrack_cm.Tracker.Message.{mad_header, from_dest}

unfoldable pub on_req_sent : CmState → Ptr → ℕ → M (Unit {0})
on_req_sent CmState.idle state qpn = do
  s ← load state
  store state (record s { state = CmState.req_sent; local_qpn = qpn })
on_req_sent CmState.req_sent state qpn = do
  s ← load state
  store state (record s { state = CmState.req_sent; local_qpn = qpn })
on_req_sent _ state qpn = pure tt

unfoldable pub on_rej_sent : CmState → ℕ → CmFlowKey → M (Unit {0})
on_rej_sent CmState.idle local_id remote_flow = erase_flow local_id remote_flow
on_rej_sent CmState.req_rcvd local_id remote_flow = erase_flow local_id remote_flow
on_rej_sent CmState.req_sent local_id remote_flow = erase_flow local_id remote_flow
on_rej_sent CmState.mra_req_rcvd local_id remote_flow = erase_flow local_id remote_flow
on_rej_sent CmState.mra_req_sent local_id remote_flow = erase_flow local_id remote_flow
on_rej_sent CmState.rep_rcvd local_id remote_flow = erase_flow local_id remote_flow
on_rej_sent CmState.mra_rep_sent local_id remote_flow = erase_flow local_id remote_flow
on_rej_sent CmState.rep_sent local_id remote_flow = erase_flow local_id remote_flow
on_rej_sent CmState.mra_rep_rcvd local_id remote_flow = erase_flow local_id remote_flow
on_rej_sent _ local_id remote_flow = pure tt

unfoldable pub send_rep : Ptr → ℕ → CmFlowKey → ℕ → M (Unit {0})
send_rep state local_id remote_flow qpn = do
  s ← load state
  store state (record s { state = CmState.rep_sent })
  _ ← add_new_flow local_id remote_flow
  s ← load state
  store state (record s { local_qpn = qpn })

unfoldable pub on_rep_sent : CmState → Ptr → ℕ → CmFlowKey → ℕ → M (Unit {0})
unfolding send_rep
on_rep_sent CmState.req_rcvd state local_id remote_flow qpn =
    send_rep state local_id remote_flow qpn
on_rep_sent CmState.mra_req_sent state local_id remote_flow qpn =
    send_rep state local_id remote_flow qpn
on_rep_sent _ state local_id remote_flow qpn = pure tt

unfoldable pub establish : Ptr → M (Unit {0})
establish state = do
  s ← load state
  store state (record s { state = CmState.established })
  on_established state

unfoldable pub on_rtu_sent : CmState → Ptr → M (Unit {0})
unfolding establish
on_rtu_sent CmState.rep_rcvd state = establish state
on_rtu_sent CmState.mra_rep_sent state = establish state
on_rtu_sent _ state = pure tt

unfoldable pub send_dreq : Ptr → M (Unit {0})
send_dreq state = do s ← load state; store state (record s { state = CmState.dreq_sent })

unfoldable pub on_dreq_sent : CmState → Ptr → M (Unit {0})
unfolding send_dreq
on_dreq_sent CmState.idle state = send_dreq state
on_dreq_sent CmState.established state = send_dreq state
on_dreq_sent CmState.dreq_sent state = send_dreq state
on_dreq_sent CmState.dreq_rcvd state = send_dreq state
on_dreq_sent _ state = pure tt

unfoldable pub on_drep : CmState → ℕ → CmFlowKey → M (Unit {0})
on_drep CmState.dreq_sent local_id remote_flow = erase_flow local_id remote_flow
on_drep CmState.dreq_rcvd local_id remote_flow = erase_flow local_id remote_flow
on_drep _ local_id remote_flow = pure tt

module _ (d : Dpdk) (parser : DynfieldOffsets) (p : Mbuf) where
  unfoldable pub req_sent : M (Unit {0})
  req_sent = do
    msg ← lift (mad_header parser p)
    let local_id = iba_get cm_req_local_comm_id p.bytes msg
    state ← get_flow local_id null_key
    s ← load state
    on_req_sent s.state state (iba_get cm_req_local_qpn p.bytes msg)

  unfoldable pub rej_sent : M (Unit {0})
  rej_sent = do
    msg ← lift (mad_header parser p)
    let local_id = iba_get cm_rej_local_comm_id p.bytes msg
    remote_flow ← lift (from_dest d p (iba_get cm_rej_remote_comm_id p.bytes msg))
    state ← get_flow local_id remote_flow
    s ← load state
    on_rej_sent s.state local_id remote_flow

  unfoldable pub rep_sent : M (Unit {0})
  rep_sent = do
    msg ← lift (mad_header parser p)
    let local_id = iba_get cm_rep_local_comm_id p.bytes msg
    remote_flow ← lift (from_dest d p (iba_get cm_rep_remote_comm_id p.bytes msg))
    state ← get_flow local_id remote_flow
    s ← load state
    on_rep_sent s.state state local_id remote_flow (iba_get cm_rep_local_qpn p.bytes msg)

  unfoldable pub rtu_sent : M (Unit {0})
  rtu_sent = do
    msg ← lift (mad_header parser p)
    state ← get_flow (iba_get cm_rtu_local_comm_id p.bytes msg) null_key
    s ← load state
    on_rtu_sent s.state state

  unfoldable pub dreq_sent : M (Unit {0})
  dreq_sent = do
    msg ← lift (mad_header parser p)
    state ← get_flow (iba_get cm_dreq_local_comm_id p.bytes msg) null_key
    s ← load state
    on_dreq_sent s.state state

  unfoldable pub drep_sent : M (Unit {0})
  drep_sent = do
    msg ← lift (mad_header parser p)
    let local_id = iba_get cm_drep_local_comm_id p.bytes msg
    remote_flow ← lift (from_dest d p (iba_get cm_drep_remote_comm_id p.bytes msg))
    state ← get_flow local_id null_key
    s ← load state
    on_drep s.state local_id remote_flow
