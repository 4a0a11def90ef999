-- ===== src/Tracker/ResponderFlow.antt =====
-- The flow of a connection that the network opens, and the lookups that find it.
use libconntrack_cm.Base.{
  ℕ, ◌+◌, ◌≡◌, ◌≢◌, refl, true, false, none, some, arith, ◌==◌, update, update₂,
}
use libconntrack_cm.Packet.{ok}
use libconntrack_cm.Store.{CmState, FlowState, CmFlowKey, Ptr, Tracker, is_set, flow_state, check}
use libconntrack_cm.Tracker.{
  bind_local, bind_remote, bind_flow, add_found, add_new_flow, or_add, get_flow,
}
use libconntrack_cm.Tracker.Host.{on_rep_sent, send_rep}
use libconntrack_cm.Tracker.HandshakeFlow.{==-refl}

-- A lookup by a new remote ID makes a flow.
abbrev pub found_remote : CmFlowKey → Tracker → Tracker
found_remote key t = record t {
  cells = update (update t.cells t.next flow_state) t.next (record flow_state { remote_id = key });
  next = t.next + 1;
  remote_map = update₂ t.remote_map key (some t.next);
}

pub get_flow-remote :
    (key : CmFlowKey) (t : Tracker)
    → is_set key ≡ true
    → t.local_map 0 ≡ none
    → t.remote_map key ≡ none
    → get_flow 0 key t ≡ ok (t.next, found_remote key t)
unfolding get_flow or_add add_new_flow add_found bind_flow bind_local bind_remote check
get_flow-remote key t set null fresh = rw (set, fresh, null, fresh, set) (rw (==-refl t.next) refl)

-- The host's ID is bound to the flow of the remote ID.
abbrev pub found_local : ℕ → Ptr → Tracker → Tracker
found_local local_id p t = record t {
  cells = update t.cells p (record (t.cells p) { local_id = local_id });
  local_map = update t.local_map local_id (some p);
}

pub get_flow-local :
    (local_id : ℕ) (key : CmFlowKey) (p : Ptr) (t : Tracker)
    → local_id ≢ 0
    → t.local_map local_id ≡ none
    → t.remote_map key ≡ some p
    → (t.cells p).local_id ≡ 0
    → get_flow local_id key t ≡ ok (p, found_local local_id p t)
unfolding get_flow or_add add_new_flow add_found bind_flow bind_local bind_remote check
get_flow-local local_id key p t ne fresh known unbound =
    let nz : (local_id == 0) ≡ false = ground arith in
    rw (nz, fresh, fresh, known) (rw (nz, unbound) refl)

add_new_flow-same :
    (local_id : ℕ) (key : CmFlowKey) (p : Ptr) (t : Tracker)
    → t.local_map local_id ≡ some p
    → t.remote_map key ≡ some p
    → (t.cells p).local_id ≡ local_id
    → (t.cells p).remote_id ≡ key
    → add_new_flow local_id key t ≡ ok (p, t)
unfolding add_new_flow add_found check
add_new_flow-same local_id key p t known known' id id' =
    rw (known, known', ==-refl p, id, id', ==-refl local_id, ==-refl key.0, ==-refl key.1) refl

-- The flow after the REQ, and after the REP.
abbrev pub asked : CmFlowKey → ℕ → FlowState
asked key qpn = record flow_state { state = CmState.req_rcvd; remote_id = key; remote_qpn = qpn }

abbrev pub accepted : ℕ → ℕ → FlowState → FlowState
accepted local_id qpn s = record s {
  state = CmState.rep_sent;
  local_id = local_id;
  local_qpn = qpn;
}

pub on_rep_sent-send_rep :
    (state : CmState) (p : Ptr) (local_id : ℕ) (key : CmFlowKey) (qpn : ℕ) (t : Tracker)
    → state ≡ CmState.req_rcvd
    → on_rep_sent state p local_id key qpn t ≡ send_rep p local_id key qpn t
unfolding on_rep_sent
on_rep_sent-send_rep state p local_id key qpn t e = rw e refl

-- The flow already has both IDs when the REP's QP number is stored.
abbrev pub with_rep : Ptr → ℕ → FlowState → Tracker → Tracker
with_rep p qpn s t =
    let cells = update t.cells p (record s { state = CmState.rep_sent }) in
    record t { cells = update cells p (record s { state = CmState.rep_sent; local_qpn = qpn }) }

pub send_rep-known :
    (p : Ptr) (local_id : ℕ) (key : CmFlowKey) (qpn : ℕ) (s : FlowState) (t : Tracker)
    → t.local_map local_id ≡ some p
    → t.remote_map key ≡ some p
    → t.cells p ≡ s
    → s.local_id ≡ local_id
    → s.remote_id ≡ key
    → send_rep p local_id key qpn t ≡ ok (tt, with_rep p qpn s t)
unfolding send_rep
send_rep-known p local_id key qpn s t known known' cell id id' =
    let x = record t { cells = update t.cells p (record s { state = CmState.rep_sent }) } in
    rw
      (
        cell,
        add_new_flow-same local_id key p x known known' (rw (==-refl p) id) (rw (==-refl p) id'),
        ==-refl p,
      )
      refl
