-- ===== src/Tracker/Table/Switches.antt =====
-- What the switch of each handler does to the QPN table; none makes a flow.
use libconntrack_cm.Base.{ℕ, ◌≡◌, ◌⊎◌, inl, inr, refl, true, arith, Bool-cases, ◌==◌, is_some}
use libconntrack_cm.Store.{CmState, CmFlowKey, Ptr, Tracker}
use libconntrack_cm.Tracker.Host.{
  on_req_sent, on_rej_sent, send_rep, on_rep_sent, establish, on_rtu_sent, send_dreq, on_dreq_sent,
  on_drep,
}
use libconntrack_cm.Tracker.Net.{
  on_req_received, on_rej_received, receive_rep, on_rep_received, on_rtu_received, receive_dreq,
  on_dreq_received,
}
use libconntrack_cm.Tracker.Dispatch.{cm_rtu_attr_id, cm_rej_attr_id, cm_drep_attr_id}
use libconntrack_cm.Tracker.Ensures
use libconntrack_cm.Tracker.Ensures.{Ensures, done}
use libconntrack_cm.Tracker.Invariant.Flow.{IsFlow}
use libconntrack_cm.Tracker.Table.{stays}
use libconntrack_cm.Tracker.Table.Quiet.{add_new_flow-IsSilent}
use libconntrack_cm.Tracker.Table.Acts.{
  IsMove, IsMove-refl, on_established-IsMove, erase_flow-IsMove,
}

-- One of the IDs is known after the lookup.
pub flow-known :
    {t₀ t : Tracker} {k : ℕ} {key : CmFlowKey} {p : Ptr}
    → IsFlow t₀ k key p t
    → (is_some (t.local_map k) ≡ true) ⊎ (is_some (t.remote_map key) ≡ true)
flow-known {k} f = elim (Bool-cases (k == 0)) [
  | inl z ↦ inr (rw (f.by_remote (ground arith)) refl)
  | inr nz ↦ inl (rw (f.by_local (ground arith)) refl)
]

-- The switches that allocate nothing.
module _ (a : ℕ) where
  pub on_req_sent-IsMove :
      (c : CmState) (p : Ptr) (qpn : ℕ) (t : Tracker)
      → Ensures (λ _ u. IsMove a t u) (on_req_sent c p qpn t)
  unfolding on_req_sent
  on_req_sent-IsMove CmState.idle p qpn t = done (record { table = stays; next = refl })
  on_req_sent-IsMove CmState.req_sent p qpn t = done (record { table = stays; next = refl })
  on_req_sent-IsMove _ p qpn t = done (IsMove-refl t)

  pub on_req_received-IsMove :
      (c : CmState) (p : Ptr) (qpn : ℕ) (t : Tracker)
      → Ensures (λ _ u. IsMove a t u) (on_req_received c p qpn t)
  unfolding on_req_received
  on_req_received-IsMove CmState.idle p qpn t = done (record { table = stays; next = refl })
  on_req_received-IsMove CmState.req_rcvd p qpn t =
      Ensures.bind_check _ _ _ λ same. done (record { table = stays; next = refl })
  on_req_received-IsMove _ p qpn t = done (IsMove-refl t)

  pub on_dreq_sent-IsMove :
      (c : CmState) (p : Ptr) (t : Tracker) → Ensures (λ _ u. IsMove a t u) (on_dreq_sent c p t)
  unfolding on_dreq_sent send_dreq
  on_dreq_sent-IsMove CmState.idle p t = done (record { table = stays; next = refl })
  on_dreq_sent-IsMove CmState.established p t = done (record { table = stays; next = refl })
  on_dreq_sent-IsMove CmState.dreq_sent p t = done (record { table = stays; next = refl })
  on_dreq_sent-IsMove CmState.dreq_rcvd p t = done (record { table = stays; next = refl })
  on_dreq_sent-IsMove _ p t = done (IsMove-refl t)

  pub on_dreq_received-IsMove :
      (c : CmState) (p : Ptr) (t : Tracker) → Ensures (λ _ u. IsMove a t u) (on_dreq_received c p t)
  unfolding on_dreq_received receive_dreq
  on_dreq_received-IsMove CmState.idle p t = done (IsMove-refl t)
  on_dreq_received-IsMove CmState.req_sent p t = done (IsMove-refl t)
  on_dreq_received-IsMove CmState.req_rcvd p t = done (IsMove-refl t)
  on_dreq_received-IsMove CmState.mra_req_rcvd p t = done (IsMove-refl t)
  on_dreq_received-IsMove CmState.mra_req_sent p t = done (IsMove-refl t)
  on_dreq_received-IsMove CmState.mra_rep_sent p t = done (IsMove-refl t)
  on_dreq_received-IsMove CmState.rep_rcvd p t = done (IsMove-refl t)
  on_dreq_received-IsMove _ p t = done (record { table = stays; next = refl })

  -- A REP gives the flow its other ID; the flow is known, so none is made.
  send_rep-IsMove :
      {t₀ : Tracker} (p : Ptr) (k : ℕ) (key : CmFlowKey) (qpn : ℕ) (t : Tracker)
      → IsFlow t₀ k key p t
      → Ensures (λ _ u. IsMove a t u) (send_rep p k key qpn t)
  unfolding send_rep
  send_rep-IsMove p k key qpn t f =
      Ensures.bind (add_new_flow-IsSilent k key _ (flow-known f))
        λ q u s. done (record { table = rw s.table stays; next = s.next })

  pub on_rep_sent-IsMove :
      {t₀ : Tracker} (c : CmState) (p : Ptr) (k : ℕ) (key : CmFlowKey) (qpn : ℕ) (t : Tracker)
      → IsFlow t₀ k key p t
      → Ensures (λ _ u. IsMove a t u) (on_rep_sent c p k key qpn t)
  unfolding on_rep_sent
  on_rep_sent-IsMove CmState.req_rcvd p k key qpn t f = send_rep-IsMove p k key qpn t f
  on_rep_sent-IsMove CmState.mra_req_sent p k key qpn t f = send_rep-IsMove p k key qpn t f
  on_rep_sent-IsMove _ p k key qpn t f = done (IsMove-refl t)

  receive_rep-IsMove :
      (p : Ptr) (k : ℕ) (key : CmFlowKey) (qpn : ℕ) (t : Tracker)
      → (is_some (t.local_map k) ≡ true) ⊎ (is_some (t.remote_map key) ≡ true)
      → Ensures (λ _ u. IsMove a t u) (receive_rep p k key qpn t)
  unfolding receive_rep
  receive_rep-IsMove p k key qpn t known =
      Ensures.bind (add_new_flow-IsSilent k key _ known)
        λ q u s. done (record { table = rw s.table stays; next = s.next })

  pub on_rep_received-IsMove :
      (c : CmState) (p : Ptr) (k : ℕ) (key : CmFlowKey) (qpn : ℕ) (t : Tracker)
      → (is_some (t.local_map k) ≡ true) ⊎ (is_some (t.remote_map key) ≡ true)
      → Ensures (λ _ u. IsMove a t u) (on_rep_received c p k key qpn t)
  unfolding on_rep_received
  on_rep_received-IsMove CmState.req_sent p k key qpn t f = receive_rep-IsMove p k key qpn t f
  on_rep_received-IsMove CmState.mra_req_rcvd p k key qpn t f = receive_rep-IsMove p k key qpn t f
  on_rep_received-IsMove _ p k key qpn t f = done (IsMove-refl t)

-- The flow becomes established.
establish-IsMove :
    (p : Ptr) (t : Tracker) → Ensures (λ _ u. IsMove cm_rtu_attr_id t u) (establish p t)
unfolding establish
establish-IsMove p t =
    Ensures.mono (on_established-IsMove p _) λ _ u s. record { table = s.table; next = s.next }

pub on_rtu_sent-IsMove :
    (c : CmState) (p : Ptr) (t : Tracker)
    → Ensures (λ _ u. IsMove cm_rtu_attr_id t u) (on_rtu_sent c p t)
unfolding on_rtu_sent
on_rtu_sent-IsMove CmState.rep_rcvd p t = establish-IsMove p t
on_rtu_sent-IsMove CmState.mra_rep_sent p t = establish-IsMove p t
on_rtu_sent-IsMove _ p t = done (IsMove-refl t)

pub on_rtu_received-IsMove :
    (c : CmState) (p : Ptr) (t : Tracker)
    → Ensures (λ _ u. IsMove cm_rtu_attr_id t u) (on_rtu_received c p t)
unfolding on_rtu_received
on_rtu_received-IsMove CmState.rep_sent p t = establish-IsMove p t
on_rtu_received-IsMove CmState.mra_rep_rcvd p t = establish-IsMove p t
on_rtu_received-IsMove _ p t = done (IsMove-refl t)

-- The flow is forgotten.
pub on_rej_sent-IsMove :
    (c : CmState) (k : ℕ) (key : CmFlowKey) (t : Tracker)
    → Ensures (λ _ u. IsMove cm_rej_attr_id t u) (on_rej_sent c k key t)
unfolding on_rej_sent
on_rej_sent-IsMove CmState.established k key t = done (IsMove-refl t)
on_rej_sent-IsMove CmState.dreq_sent k key t = done (IsMove-refl t)
on_rej_sent-IsMove CmState.dreq_rcvd k key t = done (IsMove-refl t)
on_rej_sent-IsMove CmState.timewait k key t = done (IsMove-refl t)
on_rej_sent-IsMove _ k key t = erase_flow-IsMove (inl refl) k key t

pub on_rej_received-IsMove :
    (c : CmState) (k : ℕ) (key : CmFlowKey) (t : Tracker)
    → Ensures (λ _ u. IsMove cm_rej_attr_id t u) (on_rej_received c k key t)
unfolding on_rej_received
on_rej_received-IsMove CmState.req_rcvd k key t = done (IsMove-refl t)
on_rej_received-IsMove CmState.dreq_rcvd k key t = done (IsMove-refl t)
on_rej_received-IsMove CmState.timewait k key t = done (IsMove-refl t)
on_rej_received-IsMove _ k key t = erase_flow-IsMove (inl refl) k key t

pub on_drep-IsMove :
    (c : CmState) (k : ℕ) (key : CmFlowKey) (t : Tracker)
    → Ensures (λ _ u. IsMove cm_drep_attr_id t u) (on_drep c k key t)
unfolding on_drep
on_drep-IsMove CmState.dreq_sent k key t = erase_flow-IsMove (inr refl) k key t
on_drep-IsMove CmState.dreq_rcvd k key t = erase_flow-IsMove (inr refl) k key t
on_drep-IsMove _ k key t = done (IsMove-refl t)
