-- ===== src/Tracker.antt =====
-- src/cm_connection_tracker.cpp: the operations on the flow table, on the state of Store.antt. The handlers are in
-- Tracker/Host.antt and Tracker/Net.antt.
pub mod Message
pub mod Host
pub mod Net
pub mod Dispatch
pub mod Route
pub mod Lookup
pub mod Repeat
pub mod Isolate
pub mod Ensures
pub mod Frame
pub mod Invariant
pub mod Edges
pub mod Steps
pub mod Safety
pub mod HandshakeFlow
pub mod Handshake
pub mod Connect
pub mod ResponderFlow
pub mod Responder
pub mod Answer
pub mod Teardown
pub mod Reject
pub mod Lifecycle
pub mod Total
pub mod Faults
pub mod Table
pub mod Forget
pub mod Access
use libconntrack_cm.Store.{
  CmFlowKey, CmState, FlowKey, FlowState, M, Ptr, Tracker, alloc, and_then, check, empty_tracker,
  find_local, find_remote, flow_state, get_flow_key, is_set, lift, load, null_key, pure, set_local,
  set_remote, store, ◌>>=◌, ◌>>◌,
}
use libconntrack_cm.Base.{
  ℕ, ◌+◌, ◌≡◌, refl, Bool, true, false, not, ◌&&◌, ◌||◌, Option, none, some, ◌==◌, if◌then◌else◌,
  is_some, update, Pair, pair_eq, update₂,
}
use libconntrack_cm.Packet.{Fault, assertion, null_access, Result, ok, stop, Dpdk, Mbuf, mbuf_ip}
use libconntrack_cm.Packet.Memory.{load32}

-- The end of `add_new_flow`: bind the object to the IDs under which it was not found.
unfoldable pub bind_local : ℕ → Bool → Ptr → M (Unit {0})
bind_local local_id found p =
    if not found && not (local_id == 0)
    then (do
      s ← load p
      check (s.local_id == 0)
      store p (record s { local_id = local_id })
      set_local local_id (some p))
    else pure tt

unfoldable pub bind_remote : CmFlowKey → Bool → Ptr → M (Unit {0})
bind_remote remote_id found p =
    if not found && is_set remote_id
    then (do
      s ← load p
      check (not (is_set s.remote_id))
      store p (record s { remote_id = remote_id })
      set_remote remote_id (some p))
    else pure tt

unfoldable pub bind_flow : ℕ → CmFlowKey → Bool → Bool → Ptr → M Ptr
unfolding bind_local bind_remote
bind_flow local_id remote_id in_local in_remote p = do
  bind_local local_id in_local p
  bind_remote remote_id in_remote p
  pure p

-- By the outcomes of the two lookups.
unfoldable pub add_found : ℕ → CmFlowKey → Option Ptr → Option Ptr → M Ptr
unfolding bind_flow
add_found local_id remote_id (some p) (some q) = do
  check (p == q)
  s ← load p
  check ((s.local_id == local_id) && pair_eq s.remote_id remote_id)
  pure p
add_found local_id remote_id none none = do
  check (not (local_id == 0) || is_set remote_id)
  p ← alloc
  bind_flow local_id remote_id false false p
add_found local_id remote_id (some p) none = bind_flow local_id remote_id true false p
add_found local_id remote_id none (some q) = bind_flow local_id remote_id false true q

unfoldable pub add_new_flow : ℕ → CmFlowKey → M Ptr
unfolding add_found
add_new_flow local_id remote_id = do
  p ← find_local local_id
  q ← find_remote remote_id
  add_found local_id remote_id p q

unfoldable pub or_add : ℕ → CmFlowKey → Option Ptr → M Ptr
or_add local_id remote_id (some p) = pure p
or_add local_id remote_id none = add_new_flow local_id remote_id

unfoldable pub get_flow : ℕ → CmFlowKey → M Ptr
unfolding or_add
get_flow local_id remote_id = do
  check (not (local_id == 0) || is_set remote_id)
  found ← if local_id == 0 then find_remote remote_id else find_local local_id
  or_add local_id remote_id found

-- `on_established` and `on_disconnected`.
unfoldable pub on_established : Ptr → M (Unit {0})
on_established p t =
    let s = t.cells p in
    if (s.local_qpn == 0) || (s.remote_qpn == 0)
    then ok (tt, t)
    else if is_some (t.qpn_map (get_flow_key s))
    then ok (tt, t)
    else ok (
      tt,
      record t {
        qpn_map = update₂ t.qpn_map (get_flow_key s) (some s.local_qpn);
        cells = update t.cells p (record s { in_qpn_map = true });
      },
    )

unfoldable pub on_disconnected : Ptr → M (Unit {0})
on_disconnected p t =
    let s = t.cells p in
    if (s.local_qpn == 0) || (s.remote_qpn == 0)
    then ok (tt, t)
    else if is_some (t.qpn_map (get_flow_key s))
    then ok (
      tt,
      record t {
        qpn_map = update₂ t.qpn_map (get_flow_key s) none;
        cells = update t.cells p (record s { in_qpn_map = false });
      },
    )
    else ok (tt, t)

unfoldable pub disconnect : Ptr → M (Unit {0})
unfolding on_disconnected
disconnect p = do s ← load p; if s.in_qpn_map then on_disconnected p else pure tt

unfoldable pub erase_local : ℕ → CmFlowKey → Option Ptr → M (Unit {0})
unfolding disconnect
erase_local local_id remote_id none = pure tt
erase_local local_id remote_id (some p) = do
  disconnect p
  set_local local_id none
  set_remote remote_id none

unfoldable pub erase_remote : ℕ → CmFlowKey → Option Ptr → M (Unit {0})
unfolding disconnect
erase_remote local_id remote_id none = pure tt
erase_remote local_id remote_id (some p) = do
  disconnect p
  set_remote remote_id none
  set_local local_id none

-- With a local ID the flow is looked up by it, and the other map loses the packet's remote key.
unfoldable pub erase_flow : ℕ → CmFlowKey → M (Unit {0})
unfolding erase_local erase_remote
erase_flow local_id remote_id = do
  check (not (local_id == 0) || is_set remote_id)
  if local_id == 0
      then (find_remote remote_id >>= erase_remote local_id remote_id)
      else (find_local local_id >>= erase_local local_id remote_id)

unfoldable pub get_source_qpn : Tracker → FlowKey → ℕ
get_source_qpn t flow = elim (t.qpn_map flow) [ some qpn ↦ qpn | none ↦ 0 ]
