-- ===== src/Tracker/Table/Acts.antt =====
-- What each handler does to the QPN table and to the number of flows.
use libconntrack_cm.Base.{
  ℕ, ◌≡◌, ◌⊎◌, inl, inr, refl, Option, none, some, arith, Bool-cases, ◌==◌, ◌||◌, is_some,
}
use libconntrack_cm.Store.{CmFlowKey, Ptr, Tracker, get_flow_key}
use libconntrack_cm.Tracker.{
  on_established, on_disconnected, disconnect, erase_local, erase_remote, erase_flow,
}
use libconntrack_cm.Tracker.Dispatch.{cm_rtu_attr_id, cm_rej_attr_id, cm_drep_attr_id}
use libconntrack_cm.Tracker.Ensures
use libconntrack_cm.Tracker.Ensures.{Ensures, done}
use libconntrack_cm.Tracker.Table.{TableStep, stays, opens, closes}

-- A step of the table that allocates nothing.
pub record IsMove (a : ℕ) (t u : Tracker) : Type 0 where
  pub table : TableStep a t.qpn_map u.qpn_map
  pub next : u.next ≡ t.next

pub IsMove-refl : {a : ℕ} (t : Tracker) → IsMove a t t
IsMove-refl t = record { table = stays; next = refl }

pub on_established-IsMove :
    (p : Ptr) (t : Tracker) → Ensures (λ _ u. IsMove cm_rtu_attr_id t u) (on_established p t)
unfolding on_established
on_established-IsMove p t =
    elim (Bool-cases (((t.cells p).local_qpn == 0) || ((t.cells p).remote_qpn == 0))) [
      | inl bad ↦ rw bad (done (IsMove-refl t))
      | inr good ↦ elim (Bool-cases (is_some (t.qpn_map (get_flow_key (t.cells p))))) [
        | inl taken ↦ rw (good, taken) (done (IsMove-refl t))
        | inr free ↦
            rw (good, free)
              (done (record {
                table = opens (get_flow_key (t.cells p)) _ refl (ground arith) (ground arith);
                next = refl;
              }))
      ]
    ]

module _ {a : ℕ} (ends : (a ≡ cm_rej_attr_id) ⊎ (a ≡ cm_drep_attr_id)) where
  disconnect-IsMove : (p : Ptr) (t : Tracker) → Ensures (λ _ u. IsMove a t u) (disconnect p t)
  unfolding disconnect on_disconnected
  disconnect-IsMove p t = elim (Bool-cases (t.cells p).in_qpn_map) [
    | inr out ↦ rw out (done (IsMove-refl t))
    | inl mark ↦ elim (Bool-cases (((t.cells p).local_qpn == 0) || ((t.cells p).remote_qpn == 0))) [
      | inl bad ↦ rw (mark, bad) (done (IsMove-refl t))
      | inr good ↦ elim (Bool-cases (is_some (t.qpn_map (get_flow_key (t.cells p))))) [
        | inr absent ↦ rw (mark, good, absent) (done (IsMove-refl t))
        | inl here ↦
            rw (mark, good, here)
              (done (record { table = closes (get_flow_key (t.cells p)) ends here; next = refl }))
      ]
    ]
  ]

  erase_local-IsMove :
      (k : ℕ) (key : CmFlowKey) (r : Option Ptr) (t : Tracker)
      → Ensures (λ _ u. IsMove a t u) (erase_local k key r t)
  unfolding erase_local
  erase_local-IsMove k key none t = done (IsMove-refl t)
  erase_local-IsMove k key (some p) t =
      Ensures.bind (disconnect-IsMove p t) λ _ u s. done (record { table = s.table; next = s.next })

  erase_remote-IsMove :
      (k : ℕ) (key : CmFlowKey) (r : Option Ptr) (t : Tracker)
      → Ensures (λ _ u. IsMove a t u) (erase_remote k key r t)
  unfolding erase_remote
  erase_remote-IsMove k key none t = done (IsMove-refl t)
  erase_remote-IsMove k key (some p) t =
      Ensures.bind (disconnect-IsMove p t) λ _ u s. done (record { table = s.table; next = s.next })

  pub erase_flow-IsMove :
      (k : ℕ) (key : CmFlowKey) (t : Tracker) → Ensures (λ _ u. IsMove a t u) (erase_flow k key t)
  unfolding erase_flow
  erase_flow-IsMove k key t = Ensures.bind_check _ _ _ λ ids. elim (Bool-cases (k == 0)) [
    | inl z ↦ rw z (erase_remote-IsMove k key (t.remote_map key) t)
    | inr nz ↦ rw nz (erase_local-IsMove k key (t.local_map k) t)
  ]
