-- ===== src/Tracker/Net.antt =====
-- The handlers of src/cm_connection_tracker.cpp for messages that come from the network. Each handler
-- looks the flow up and switches on its state; the `switch` of a handler is the function `on_…`.
use libconntrack_cm.Base.{ℕ, ◌==◌}
use libconntrack_cm.Packet.{Dpdk, DynfieldOffsets, Mbuf}
use libconntrack_cm.Iba.{iba_get}
use libconntrack_cm.Cm.Req.{cm_req_local_comm_id, cm_req_local_qpn}
use libconntrack_cm.Cm.Rej.{cm_rej_local_comm_id, cm_rej_remote_comm_id}
use libconntrack_cm.Cm.Rep.{cm_rep_local_comm_id, cm_rep_remote_comm_id, cm_rep_local_qpn}
use libconntrack_cm.Cm.Rtu.{cm_rtu_remote_comm_id}
use libconntrack_cm.Cm.Dreq.{cm_dreq_remote_comm_id}
use libconntrack_cm.Cm.Drep.{cm_drep_local_comm_id, cm_drep_remote_comm_id}
use libconntrack_cm.Store.{
  CmState, CmFlowKey, null_key, Ptr, M, pure, ◌>>=◌, ◌>>◌, lift, check, load, store,
}
use libconntrack_cm.Tracker.{add_new_flow, get_flow, erase_flow}
use libconntrack_cm.Tracker.Message.{mad_header, from_src}
use libconntrack_cm.Tracker.Host.{on_drep, establish}

unfoldable pub receive_req : Ptr → ℕ → M (Unit {0})
receive_req state qpn = do
  s ← load state
  store state (record s { state = CmState.req_rcvd; remote_qpn = qpn })

unfoldable pub on_req_received : CmState → Ptr → ℕ → M (Unit {0})
unfolding receive_req
on_req_received CmState.req_rcvd state qpn = do
  s ← load state
  check (s.remote_qpn == qpn)
  receive_req state qpn
on_req_received CmState.idle state qpn = receive_req state qpn
on_req_received _ state qpn = pure tt

unfoldable pub on_rej_received : CmState → ℕ → CmFlowKey → M (Unit {0})
on_rej_received CmState.idle local_id remote_flow = erase_flow local_id remote_flow
on_rej_received CmState.req_sent local_id remote_flow = erase_flow local_id remote_flow
on_rej_received CmState.mra_req_rcvd local_id remote_flow = erase_flow local_id remote_flow
on_rej_received CmState.rep_sent local_id remote_flow = erase_flow local_id remote_flow
on_rej_received CmState.mra_rep_rcvd local_id remote_flow = erase_flow local_id remote_flow
on_rej_received CmState.mra_req_sent local_id remote_flow = erase_flow local_id remote_flow
on_rej_received CmState.dreq_sent local_id remote_flow = erase_flow local_id remote_flow
on_rej_received CmState.rep_rcvd local_id remote_flow = erase_flow local_id remote_flow
on_rej_received CmState.mra_rep_sent local_id remote_flow = erase_flow local_id remote_flow
on_rej_received CmState.established local_id remote_flow = erase_flow local_id remote_flow
on_rej_received _ local_id remote_flow = pure tt

unfoldable pub receive_rep : Ptr → ℕ → CmFlowKey → ℕ → M (Unit {0})
receive_rep state local_id remote_flow qpn = do
  s ← load state
  store state (record s { state = CmState.rep_rcvd; remote_qpn = qpn })
  _ ← add_new_flow local_id remote_flow
  pure tt

unfoldable pub on_rep_received : CmState → Ptr → ℕ → CmFlowKey → ℕ → M (Unit {0})
unfolding receive_rep
on_rep_received CmState.req_sent state local_id remote_flow qpn =
    receive_rep state local_id remote_flow qpn
on_rep_received CmState.mra_req_rcvd state local_id remote_flow qpn =
    receive_rep state local_id remote_flow qpn
on_rep_received _ state local_id remote_flow qpn = pure tt

unfoldable pub on_rtu_received : CmState → Ptr → M (Unit {0})
unfolding establish
on_rtu_received CmState.rep_sent state = establish state
on_rtu_received CmState.mra_rep_rcvd state = establish state
on_rtu_received _ state = pure tt

unfoldable pub receive_dreq : Ptr → M (Unit {0})
receive_dreq state = do s ← load state; store state (record s { state = CmState.dreq_rcvd })

unfoldable pub on_dreq_received : CmState → Ptr → M (Unit {0})
unfolding receive_dreq
on_dreq_received CmState.rep_sent state = receive_dreq state
on_dreq_received CmState.dreq_sent state = receive_dreq state
on_dreq_received CmState.established state = receive_dreq state
on_dreq_received CmState.mra_rep_rcvd state = receive_dreq state
on_dreq_received CmState.timewait state = receive_dreq state
on_dreq_received CmState.dreq_rcvd state = receive_dreq state
on_dreq_received _ state = pure tt

module _ (d : Dpdk) (parser : DynfieldOffsets) (p : Mbuf) where
  unfoldable pub req_received : M (Unit {0})
  req_received = do
    msg ← lift (mad_header parser p)
    remote_flow ← lift (from_src d p (iba_get cm_req_local_comm_id p.bytes msg))
    state ← get_flow 0 remote_flow
    s ← load state
    on_req_received s.state state (iba_get cm_req_local_qpn p.bytes msg)

  unfoldable pub rej_received : M (Unit {0})
  rej_received = do
    msg ← lift (mad_header parser p)
    let local_id = iba_get cm_rej_remote_comm_id p.bytes msg
    remote_flow ← lift (from_src d p (iba_get cm_rej_local_comm_id p.bytes msg))
    state ← get_flow local_id remote_flow
    s ← load state
    on_rej_received s.state local_id remote_flow

  unfoldable pub rep_received : M (Unit {0})
  rep_received = do
    msg ← lift (mad_header parser p)
    let local_id = iba_get cm_rep_remote_comm_id p.bytes msg
    remote_flow ← lift (from_src d p (iba_get cm_rep_local_comm_id p.bytes msg))
    state ← get_flow local_id null_key
    s ← load state
    on_rep_received s.state state local_id remote_flow (iba_get cm_rep_local_qpn p.bytes msg)

  unfoldable pub rtu_received : M (Unit {0})
  rtu_received = do
    msg ← lift (mad_header parser p)
    state ← get_flow (iba_get cm_rtu_remote_comm_id p.bytes msg) null_key
    s ← load state
    on_rtu_received s.state state

  unfoldable pub dreq_received : M (Unit {0})
  dreq_received = do
    msg ← lift (mad_header parser p)
    state ← get_flow (iba_get cm_dreq_remote_comm_id p.bytes msg) null_key
    s ← load state
    on_dreq_received s.state state

  unfoldable pub drep_received : M (Unit {0})
  drep_received = do
    msg ← lift (mad_header parser p)
    let local_id = iba_get cm_drep_remote_comm_id p.bytes msg
    remote_flow ← lift (from_src d p (iba_get cm_drep_local_comm_id p.bytes msg))
    state ← get_flow local_id null_key
    s ← load state
    on_drep s.state local_id remote_flow
