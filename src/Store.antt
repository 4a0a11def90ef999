-- ===== src/Store.antt =====
-- The state of the connection tracker of src/cm_connection_tracker.h, and computations on it. The flow objects live
-- behind shared pointers, so they stand in a store; a pointer is its number. Hash maps are functions.
use libconntrack_cm.Base.{
  ℕ, ◌+◌, Bool, true, false, not, ◌&&◌, Option, none, ◌==◌, update, Pair, update₂,
}
use libconntrack_cm.Packet.{assertion, Result, ok, stop}

pub data CmState : Type 0 where
  idle req_sent req_rcvd mra_req_rcvd mra_req_sent mra_rep_sent mra_rep_rcvd : CmState
  rep_sent rep_rcvd established dreq_sent dreq_rcvd timewait : CmState

-- An IPv4 address and a communication ID.
abbrev pub CmFlowKey : Type 0
CmFlowKey = Pair

-- A destination address and a destination QP number.
abbrev pub FlowKey : Type 0
FlowKey = Pair

-- The default constructor of the tuple.
abbrev pub null_key : CmFlowKey
null_key = (0, 0)

-- `cm_flow_key::operator bool`.
abbrev pub is_set : CmFlowKey → Bool
is_set k = not (k.0 == 0) && not (k.1 == 0)

pub record FlowState : Type 0 where
  pub state : CmState
  pub local_id : ℕ
  pub remote_id : CmFlowKey
  pub local_qpn : ℕ
  pub remote_qpn : ℕ
  pub in_qpn_map : Bool

abbrev pub flow_state : FlowState
flow_state = record {
  state = idle;
  local_id = 0;
  remote_id = null_key;
  local_qpn = 0;
  remote_qpn = 0;
  in_qpn_map = false;
}

abbrev pub get_flow_key : FlowState → FlowKey
get_flow_key s = (s.remote_id.0, s.remote_qpn)

abbrev pub Ptr : Type 0
Ptr = ℕ

-- `cells` holds the flow objects, `next` is the number of the next one that is allocated.
pub record Tracker : Type 0 where
  pub cells : Ptr → FlowState
  pub next : Ptr
  pub local_map : ℕ → Option Ptr
  pub remote_map : CmFlowKey → Option Ptr
  pub qpn_map : FlowKey → Option ℕ

abbrev pub empty_tracker : Tracker
empty_tracker = record {
  cells = λ _. flow_state;
  next = 0;
  local_map = λ _. none;
  remote_map = λ _. none;
  qpn_map = λ _. none;
}

abbrev pub M : Type 0 → Type 0
M A = Tracker → Result (A × Tracker)

abbrev pub pure : {A : Type 0} → A → M A
pure a t = ok (a, t)

abbrev pub and_then : {A B : Type 0} → Result (A × Tracker) → (A → M B) → Result (B × Tracker)
and_then (ok (a, t)) f = f a t
and_then (stop e) f = stop e

infixl 5 ◌>>=◌ ◌>>◌
abbrev pub ◌>>=◌ : {A B : Type 0} → M A → (A → M B) → M B
◌>>=◌ m f t = and_then (m t) f

abbrev pub ◌>>◌ : {B : Type 0} → M (Unit {0}) → M B → M B
m >> k = m >>= λ _. k

-- A computation that does not touch the tracker.
unfoldable pub lift : {A : Type 0} → Result A → M A
lift (ok a) t = ok (a, t)
lift (stop e) t = stop e

unfoldable pub check : Bool → M (Unit {0})
check true t = ok (tt, t)
check false t = stop assertion

abbrev pub load : Ptr → M FlowState
load p t = ok (t.cells p, t)

abbrev pub store : Ptr → FlowState → M (Unit {0})
store p s t = ok (tt, record t { cells = update t.cells p s })

-- `std::make_shared<flow_state>()`.
abbrev pub alloc : M Ptr
alloc t = ok (t.next, record t { cells = update t.cells t.next flow_state; next = t.next + 1 })

abbrev pub find_local : ℕ → M (Option Ptr)
find_local k t = ok (t.local_map k, t)

abbrev pub find_remote : CmFlowKey → M (Option Ptr)
find_remote k t = ok (t.remote_map k, t)

abbrev pub set_local : ℕ → Option Ptr → M (Unit {0})
set_local k p t = ok (tt, record t { local_map = update t.local_map k p })

abbrev pub set_remote : CmFlowKey → Option Ptr → M (Unit {0})
set_remote k p t = ok (tt, record t { remote_map = update₂ t.remote_map k p })
