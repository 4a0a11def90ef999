-- ===== src/Tracker/Access/Flows.antt =====
-- The operations on the flow table fail by an assertion alone.
use libconntrack_cm.Base.{
  ℕ, Bool, true, false, not, ◌&&◌, ◌||◌, Option, none, some, Bool-cases, inl, inr, ◌==◌, is_some,
}
use libconntrack_cm.Store.{CmFlowKey, Ptr, Tracker, is_set, get_flow_key}
use libconntrack_cm.Tracker.{
  bind_local, bind_remote, bind_flow, add_found, add_new_flow, or_add, get_flow, on_established,
  on_disconnected, disconnect, erase_local, erase_remote, erase_flow,
}
use libconntrack_cm.Tracker.Access
use libconntrack_cm.Tracker.Access.{NoNull, returns, asserts}

bind_local-NoNull : (k : ℕ) (found : Bool) (p : Ptr) (t : Tracker) → NoNull (bind_local k found p t)
unfolding bind_local
bind_local-NoNull k found p t = elim (Bool-cases (not found && not (k == 0))) [
  | inr skips ↦ rw skips returns
  | inl binds ↦ rw binds (Access.bind_check _ _ _ returns)
]

bind_remote-NoNull :
    (key : CmFlowKey) (found : Bool) (p : Ptr) (t : Tracker) → NoNull (bind_remote key found p t)
unfolding bind_remote
bind_remote-NoNull key found p t = elim (Bool-cases (not found && is_set key)) [
  | inr skips ↦ rw skips returns
  | inl binds ↦ rw binds (Access.bind_check _ _ _ returns)
]

bind_flow-NoNull :
    (k : ℕ) (key : CmFlowKey) (in_local in_remote : Bool) (p : Ptr) (t : Tracker)
    → NoNull (bind_flow k key in_local in_remote p t)
unfolding bind_flow
bind_flow-NoNull k key in_local in_remote p t =
    Access.bind (bind_local-NoNull k in_local p t)
      λ _ u. Access.bind (bind_remote-NoNull key in_remote p u) λ _ v. returns

add_found-NoNull :
    (k : ℕ) (key : CmFlowKey) (l r : Option Ptr) (t : Tracker) → NoNull (add_found k key l r t)
unfolding add_found
add_found-NoNull k key (some p) (some q) t =
    Access.bind_check _ _ _ (Access.bind_check _ _ _ returns)
add_found-NoNull k key none none t =
    Access.bind_check _ _ _ (bind_flow-NoNull k key false false t.next _)
add_found-NoNull k key (some p) none t = bind_flow-NoNull k key true false p t
add_found-NoNull k key none (some q) t = bind_flow-NoNull k key false true q t

pub add_new_flow-NoNull : (k : ℕ) (key : CmFlowKey) (t : Tracker) → NoNull (add_new_flow k key t)
unfolding add_new_flow
add_new_flow-NoNull k key t = add_found-NoNull k key (t.local_map k) (t.remote_map key) t

or_add-NoNull :
    (k : ℕ) (key : CmFlowKey) (found : Option Ptr) (t : Tracker) → NoNull (or_add k key found t)
unfolding or_add
or_add-NoNull k key (some p) t = returns
or_add-NoNull k key none t = add_new_flow-NoNull k key t

pub get_flow-NoNull : (k : ℕ) (key : CmFlowKey) (t : Tracker) → NoNull (get_flow k key t)
unfolding get_flow
get_flow-NoNull k key t = Access.bind_check _ _ _ (elim (Bool-cases (k == 0)) [
  | inl z ↦ rw z (or_add-NoNull k key (t.remote_map key) t)
  | inr nz ↦ rw nz (or_add-NoNull k key (t.local_map k) t)
])

pub on_established-NoNull : (p : Ptr) (t : Tracker) → NoNull (on_established p t)
unfolding on_established
on_established-NoNull p t =
    elim (Bool-cases (((t.cells p).local_qpn == 0) || ((t.cells p).remote_qpn == 0))) [
      | inl bad ↦ rw bad returns
      | inr good ↦ elim (Bool-cases (is_some (t.qpn_map (get_flow_key (t.cells p))))) [
        | inl taken ↦ rw (good, taken) returns
        | inr free ↦ rw (good, free) returns
      ]
    ]

on_disconnected-NoNull : (p : Ptr) (t : Tracker) → NoNull (on_disconnected p t)
unfolding on_disconnected
on_disconnected-NoNull p t =
    elim (Bool-cases (((t.cells p).local_qpn == 0) || ((t.cells p).remote_qpn == 0))) [
      | inl bad ↦ rw bad returns
      | inr good ↦ elim (Bool-cases (is_some (t.qpn_map (get_flow_key (t.cells p))))) [
        | inl here ↦ rw (good, here) returns
        | inr absent ↦ rw (good, absent) returns
      ]
    ]

disconnect-NoNull : (p : Ptr) (t : Tracker) → NoNull (disconnect p t)
unfolding disconnect
disconnect-NoNull p t = elim (Bool-cases (t.cells p).in_qpn_map) [
  | inl mark ↦ rw mark (on_disconnected-NoNull p t)
  | inr out ↦ rw out returns
]

erase_local-NoNull :
    (k : ℕ) (key : CmFlowKey) (r : Option Ptr) (t : Tracker) → NoNull (erase_local k key r t)
unfolding erase_local
erase_local-NoNull k key none t = returns
erase_local-NoNull k key (some p) t = Access.bind (disconnect-NoNull p t) λ _ u. returns

erase_remote-NoNull :
    (k : ℕ) (key : CmFlowKey) (r : Option Ptr) (t : Tracker) → NoNull (erase_remote k key r t)
unfolding erase_remote
erase_remote-NoNull k key none t = returns
erase_remote-NoNull k key (some p) t = Access.bind (disconnect-NoNull p t) λ _ u. returns

pub erase_flow-NoNull : (k : ℕ) (key : CmFlowKey) (t : Tracker) → NoNull (erase_flow k key t)
unfolding erase_flow
erase_flow-NoNull k key t = Access.bind_check _ _ _ (elim (Bool-cases (k == 0)) [
  | inl z ↦ rw z (erase_remote-NoNull k key (t.remote_map key) t)
  | inr nz ↦ rw nz (erase_local-NoNull k key (t.local_map k) t)
])
