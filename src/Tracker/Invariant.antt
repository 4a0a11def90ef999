-- ===== src/Tracker/Invariant.antt =====
-- The invariant of the connection tracker: its two ID maps agree with the flow objects, and the QPN
-- table holds exactly the flows that are marked as being in it.
pub mod Write
pub mod Erase
pub mod Bound
pub mod Flow
pub mod Bind
use libconntrack_cm.Base.{ℕ, ◌<◌, ◌≡◌, ◌≢◌, refl, Bool, true, false, Option, none, some, arith}
use libconntrack_cm.Store.{
  CmState, CmFlowKey, FlowKey, FlowState, Ptr, Tracker, is_set, get_flow_key, empty_tracker,
}

-- The states in which a flow can be in the QPN table.
abbrev pub settled : CmState → Bool
settled CmState.established = true
settled CmState.dreq_sent = true
settled CmState.dreq_rcvd = true
settled _ = false

-- Flow `p` is in the QPN table, under its own key, and can be found by its local ID.
pub record IsListed (t : Tracker) (p : Ptr) : Type 0 where
  pub found : t.local_map (t.cells p).local_id ≡ some p
  pub is_settled : settled (t.cells p).state ≡ true
  pub local_qpn : (t.cells p).local_qpn ≢ 0
  pub remote_qpn : (t.cells p).remote_qpn ≢ 0
  pub entry : t.qpn_map (get_flow_key (t.cells p)) ≡ some (t.cells p).local_qpn

abbrev pub IsFlagged : Tracker → Ptr → Type 0
IsFlagged t p = (t.cells p).in_qpn_map ≡ true

pub record Inv (t : Tracker) : Type 0 where
  pub local_ok :
      (k p : ℕ) → t.local_map k ≡ some p → (k ≢ 0) × (p < t.next) × ((t.cells p).local_id ≡ k)
  pub remote_ok :
      (k : CmFlowKey) (p : ℕ)
      → t.remote_map k ≡ some p
      → (is_set k ≡ true) × (p < t.next) × ((t.cells p).remote_id ≡ k)
  pub flagged_ok : (p : Ptr) → IsFlagged t p → IsListed t p
  pub listed :
      (k : FlowKey) (v : ℕ)
      → t.qpn_map k ≡ some v
      → (p : Ptr) × IsFlagged t p × (get_flow_key (t.cells p) ≡ k) × ((t.cells p).local_qpn ≡ v)
  pub distinct :
      (p q : Ptr)
      → IsFlagged t p
      → IsFlagged t q
      → get_flow_key (t.cells p) ≡ get_flow_key (t.cells q)
      → p ≡ q

-- The tracker that the constructor makes.
pub empty_tracker-Inv : Inv empty_tracker
empty_tracker-Inv = record {
  local_ok = λ k p h. cc;
  remote_ok = λ k p h. cc;
  flagged_ok = λ p h. cc;
  listed = λ k v h. cc;
  distinct = λ p q h. cc;
}
