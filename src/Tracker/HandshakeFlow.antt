-- ===== src/Tracker/HandshakeFlow.antt =====
-- The flow of a connection that the host opens, and the lookups that find it.
use libconntrack_cm.Base.{
  ℕ, ◌+◌, ◌≡◌, ◌≢◌, refl, ap, true, false, none, some, arith, ◌==◌, update, update₂,
}
use libconntrack_cm.Packet.{DynfieldOffsets, Mbuf, ok, ctcm_mbuf_get_mad}
use libconntrack_cm.Iba.{iba_get16}
use libconntrack_cm.Store.{
  CmState, FlowState, CmFlowKey, Ptr, Tracker, null_key, is_set, flow_state, check,
}
use libconntrack_cm.Tracker.{
  bind_local, bind_remote, bind_flow, add_found, add_new_flow, or_add, get_flow,
}
use libconntrack_cm.Tracker.Message.{mad_header, get_attr_id}

-- The packet carries a CM message with the attribute ID, whose MAD header is at `a`.
abbrev pub Carries : DynfieldOffsets → Mbuf → ℕ → ℕ → Type 0
Carries parser m a attr_id =
    (ctcm_mbuf_get_mad parser m ≡ ok (some a)) × (iba_get16 m.bytes (a + 16) ≡ attr_id)

pub mad_header-Carries :
    (parser : DynfieldOffsets) (m : Mbuf) (a attr_id : ℕ)
    → Carries parser m a attr_id
    → (mad_header parser m ≡ ok a) × (get_attr_id parser m ≡ ok attr_id)
unfolding mad_header get_attr_id
mad_header-Carries parser m a attr_id (mad, attr) = (rw mad refl, rw mad (ap ok attr))

-- The flow that a REQ opens.
abbrev pub opened : ℕ → ℕ → FlowState
opened local_id qpn = record flow_state {
  state = CmState.req_sent;
  local_id = local_id;
  local_qpn = qpn;
}

-- The flow after the REP with that remote ID and QP number.
abbrev pub answered : CmFlowKey → ℕ → FlowState → FlowState
answered key qpn s = record s { state = CmState.rep_rcvd; remote_qpn = qpn; remote_id = key }

-- The flow after the RTU.
abbrev pub listed : FlowState → FlowState
listed s = record s { state = CmState.established; in_qpn_map = true }

pub ==-refl : (n : ℕ) → (n == n) ≡ true
==-refl n = ground arith

-- A lookup by a new local ID makes a flow.
abbrev pub found_new : ℕ → Tracker → Tracker
found_new local_id t = record t {
  cells =
      update (update t.cells t.next flow_state) t.next (record flow_state { local_id = local_id });
  next = t.next + 1;
  local_map = update t.local_map local_id (some t.next);
}

pub get_flow-new :
    (local_id : ℕ) (t : Tracker)
    → local_id ≢ 0
    → t.local_map local_id ≡ none
    → t.remote_map null_key ≡ none
    → get_flow local_id null_key t ≡ ok (t.next, found_new local_id t)
unfolding get_flow or_add add_new_flow add_found bind_flow bind_local bind_remote check
get_flow-new local_id t ne fresh null =
    let nz : (local_id == 0) ≡ false = ground arith in rw (nz, fresh, fresh, null) (ground arith)

-- A lookup by a known local ID changes nothing.
pub get_flow-known :
    (local_id : ℕ) (p : Ptr) (t : Tracker)
    → local_id ≢ 0
    → t.local_map local_id ≡ some p
    → get_flow local_id null_key t ≡ ok (p, t)
unfolding get_flow or_add check
get_flow-known local_id p t ne known =
    let nz : (local_id == 0) ≡ false = ground arith in rw (nz, known) refl

-- A flow without a remote ID takes the key.
pub bind_remote-binds :
    (key : CmFlowKey) (p : Ptr) (t : Tracker)
    → is_set key ≡ true
    → is_set (t.cells p).remote_id ≡ false
    → bind_remote key false p t
      ≡ ok (
        tt,
        record t {
          cells = update t.cells p (record (t.cells p) { remote_id = key });
          remote_map = update₂ t.remote_map key (some p);
        },
      )
unfolding bind_remote check
bind_remote-binds key p t set unset = rw (set, unset) refl

-- The flow of a local ID, as the handlers find it.
abbrev pub Holds : Tracker → ℕ → Ptr → FlowState → Type 0
Holds t local_id p s = (t.local_map local_id ≡ some p) × (t.cells p ≡ s)
