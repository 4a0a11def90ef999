-- ===== src/Tracker/Access/Switches.antt =====
-- The switches of the handlers fail by an assertion alone.
use libconntrack_cm.Base.{ℕ}
use libconntrack_cm.Store.{CmState, CmFlowKey, Ptr, Tracker}
use libconntrack_cm.Tracker.Host.{
  on_req_sent, on_rej_sent, send_rep, on_rep_sent, establish, on_rtu_sent, send_dreq, on_dreq_sent,
  on_drep,
}
use libconntrack_cm.Tracker.Net.{
  receive_req, on_req_received, on_rej_received, receive_rep, on_rep_received, on_rtu_received,
  receive_dreq, on_dreq_received,
}
use libconntrack_cm.Tracker.Access
use libconntrack_cm.Tracker.Access.{NoNull, returns, asserts}
use libconntrack_cm.Tracker.Access.Flows.{
  add_new_flow-NoNull, on_established-NoNull, erase_flow-NoNull,
}

pub on_req_sent-NoNull :
    (c : CmState) (p : Ptr) (qpn : ℕ) (t : Tracker) → NoNull (on_req_sent c p qpn t)
unfolding on_req_sent
on_req_sent-NoNull CmState.idle p qpn t = returns
on_req_sent-NoNull CmState.req_sent p qpn t = returns
on_req_sent-NoNull _ p qpn t = returns

pub on_rej_sent-NoNull :
    (c : CmState) (k : ℕ) (key : CmFlowKey) (t : Tracker) → NoNull (on_rej_sent c k key t)
unfolding on_rej_sent
on_rej_sent-NoNull CmState.established k key t = returns
on_rej_sent-NoNull CmState.dreq_sent k key t = returns
on_rej_sent-NoNull CmState.dreq_rcvd k key t = returns
on_rej_sent-NoNull CmState.timewait k key t = returns
on_rej_sent-NoNull _ k key t = erase_flow-NoNull k key t

send_rep-NoNull :
    (p : Ptr) (k : ℕ) (key : CmFlowKey) (qpn : ℕ) (t : Tracker) → NoNull (send_rep p k key qpn t)
unfolding send_rep
send_rep-NoNull p k key qpn t = Access.bind (add_new_flow-NoNull k key _) λ q u. returns

pub on_rep_sent-NoNull :
    (c : CmState) (p : Ptr) (k : ℕ) (key : CmFlowKey) (qpn : ℕ) (t : Tracker)
    → NoNull (on_rep_sent c p k key qpn t)
unfolding on_rep_sent
on_rep_sent-NoNull CmState.req_rcvd p k key qpn t = send_rep-NoNull p k key qpn t
on_rep_sent-NoNull CmState.mra_req_sent p k key qpn t = send_rep-NoNull p k key qpn t
on_rep_sent-NoNull _ p k key qpn t = returns

establish-NoNull : (p : Ptr) (t : Tracker) → NoNull (establish p t)
unfolding establish
establish-NoNull p t = on_established-NoNull p _

pub on_rtu_sent-NoNull : (c : CmState) (p : Ptr) (t : Tracker) → NoNull (on_rtu_sent c p t)
unfolding on_rtu_sent
on_rtu_sent-NoNull CmState.rep_rcvd p t = establish-NoNull p t
on_rtu_sent-NoNull CmState.mra_rep_sent p t = establish-NoNull p t
on_rtu_sent-NoNull _ p t = returns

pub on_dreq_sent-NoNull : (c : CmState) (p : Ptr) (t : Tracker) → NoNull (on_dreq_sent c p t)
unfolding on_dreq_sent send_dreq
on_dreq_sent-NoNull CmState.idle p t = returns
on_dreq_sent-NoNull CmState.established p t = returns
on_dreq_sent-NoNull CmState.dreq_sent p t = returns
on_dreq_sent-NoNull CmState.dreq_rcvd p t = returns
on_dreq_sent-NoNull _ p t = returns

pub on_drep-NoNull :
    (c : CmState) (k : ℕ) (key : CmFlowKey) (t : Tracker) → NoNull (on_drep c k key t)
unfolding on_drep
on_drep-NoNull CmState.dreq_sent k key t = erase_flow-NoNull k key t
on_drep-NoNull CmState.dreq_rcvd k key t = erase_flow-NoNull k key t
on_drep-NoNull _ k key t = returns

pub on_req_received-NoNull :
    (c : CmState) (p : Ptr) (qpn : ℕ) (t : Tracker) → NoNull (on_req_received c p qpn t)
unfolding on_req_received receive_req
on_req_received-NoNull CmState.idle p qpn t = returns
on_req_received-NoNull CmState.req_rcvd p qpn t = Access.bind_check _ _ _ returns
on_req_received-NoNull _ p qpn t = returns

pub on_rej_received-NoNull :
    (c : CmState) (k : ℕ) (key : CmFlowKey) (t : Tracker) → NoNull (on_rej_received c k key t)
unfolding on_rej_received
on_rej_received-NoNull CmState.req_rcvd k key t = returns
on_rej_received-NoNull CmState.dreq_rcvd k key t = returns
on_rej_received-NoNull CmState.timewait k key t = returns
on_rej_received-NoNull _ k key t = erase_flow-NoNull k key t

receive_rep-NoNull :
    (p : Ptr) (k : ℕ) (key : CmFlowKey) (qpn : ℕ) (t : Tracker) → NoNull (receive_rep p k key qpn t)
unfolding receive_rep
receive_rep-NoNull p k key qpn t = Access.bind (add_new_flow-NoNull k key _) λ q u. returns

pub on_rep_received-NoNull :
    (c : CmState) (p : Ptr) (k : ℕ) (key : CmFlowKey) (qpn : ℕ) (t : Tracker)
    → NoNull (on_rep_received c p k key qpn t)
unfolding on_rep_received
on_rep_received-NoNull CmState.req_sent p k key qpn t = receive_rep-NoNull p k key qpn t
on_rep_received-NoNull CmState.mra_req_rcvd p k key qpn t = receive_rep-NoNull p k key qpn t
on_rep_received-NoNull _ p k key qpn t = returns

pub on_rtu_received-NoNull : (c : CmState) (p : Ptr) (t : Tracker) → NoNull (on_rtu_received c p t)
unfolding on_rtu_received
on_rtu_received-NoNull CmState.rep_sent p t = establish-NoNull p t
on_rtu_received-NoNull CmState.mra_rep_rcvd p t = establish-NoNull p t
on_rtu_received-NoNull _ p t = returns

pub on_dreq_received-NoNull :
    (c : CmState) (p : Ptr) (t : Tracker) → NoNull (on_dreq_received c p t)
unfolding on_dreq_received receive_dreq
on_dreq_received-NoNull CmState.rep_sent p t = returns
on_dreq_received-NoNull CmState.dreq_sent p t = returns
on_dreq_received-NoNull CmState.established p t = returns
on_dreq_received-NoNull CmState.mra_rep_rcvd p t = returns
on_dreq_received-NoNull CmState.timewait p t = returns
on_dreq_received-NoNull CmState.dreq_rcvd p t = returns
on_dreq_received-NoNull _ p t = returns
