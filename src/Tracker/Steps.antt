-- ===== src/Tracker/Steps.antt =====
-- Every message is a step: the invariant is kept and each flow moves along an edge. The writes that the
-- handlers make, one lemma for each.
pub mod Host
pub mod Net
pub mod Process
use libconntrack_cm.Base.{ℕ, ◌<◌, ◌≡◌, ◌≢◌, refl, Bool, true, false, arith}
use libconntrack_cm.Store.{CmState, CmFlowKey, FlowState, Ptr, Tracker, null_key}
use libconntrack_cm.Tracker.{erase_flow}
use libconntrack_cm.Tracker.Host.{establish, on_drep}
use libconntrack_cm.Tracker.Ensures
use libconntrack_cm.Tracker.Ensures.{Ensures, done, failed}
use libconntrack_cm.Tracker.Edges.{
  edge, edge_refl, state_of, IsStep, IsKept, IsStep-refl, IsStep-frame, IsStep-IsKept,
}
use libconntrack_cm.Tracker.Invariant.{settled, Inv}
use libconntrack_cm.Tracker.Invariant.Write.{put, put-Inv, put_unmarked-Inv, unsettled-unmarked}
use libconntrack_cm.Tracker.Invariant.Flow.{get_flow-post, IsFlow}
use libconntrack_cm.Tracker.Invariant.Erase.{on_established-post, erase_flow-post}

module _ {t : Tracker} where
  -- A write to one flow is a step if its own state moves along an edge.
  pub put-IsStep :
      (p : Ptr) (s : FlowState)
      → Inv (put t p s)
      → edge (state_of t p) s.state ≡ true
      → IsStep t (put t p s)
  put-IsStep p s i e = record {
    inv = i;
    grows = omega arith;
    old = λ q h. ground (arith, edge_refl (state_of t q));
    new = λ q h k. absurd (omega arith);
  }

  pub put_unmarked-IsStep :
      (p : Ptr) (s : FlowState)
      → Inv t
      → settled (state_of t p) ≡ false
      → s.local_id ≡ (t.cells p).local_id
      → s.remote_id ≡ (t.cells p).remote_id
      → s.in_qpn_map ≡ (t.cells p).in_qpn_map
      → edge (state_of t p) s.state ≡ true
      → IsStep t (put t p s)
  put_unmarked-IsStep p s i out l r m e =
      let mark = unsettled-unmarked i p out in
      put-IsStep p s (put_unmarked-Inv i p s mark l r (ground arith)) e

  -- A change of the state alone, between states in which a flow can be in the table.
  pub put-settled-IsStep :
      (p : Ptr) (c : CmState)
      → Inv t
      → settled c ≡ true
      → edge (state_of t p) c ≡ true
      → IsStep t (put t p (record (t.cells p) { state = c }))
  put-settled-IsStep p c i h e =
      put-IsStep p _ (put-Inv i p _ refl refl refl (λ _. (h, refl, refl))) e

  pub erase_flow-IsStep :
      (k : ℕ) (key : CmFlowKey) → Inv t → Ensures (λ _ u. IsStep t u) (erase_flow k key t)
  erase_flow-IsStep k key i =
      Ensures.mono (erase_flow-post k key t i) (λ _ u kept. IsStep-IsKept (IsStep-refl i) kept)

  -- A lookup without a remote key was by a local ID.
  pub null_key-flow : {t₀ : Tracker} {k : ℕ} {p : Ptr} → IsFlow t₀ k null_key p t → k ≢ 0
  null_key-flow {p} f z = ground (arith, f.inv.remote_ok null_key p, f.by_remote z)

  -- The flow becomes established and is entered in the table.
  pub establish-IsStep :
      (t₀ : Tracker) (k : ℕ) (p : Ptr)
      → IsFlow t₀ k null_key p t
      → settled (state_of t p) ≡ false
      → edge (state_of t p) CmState.established ≡ true
      → Ensures (λ _ u. IsStep t u) (establish p t)
  unfolding establish
  establish-IsStep t₀ k p f out e =
      let found = f.by_local (null_key-flow f) in
      let step =
        put_unmarked-IsStep p (record (t.cells p) { state = CmState.established }) f.inv out refl
          refl refl e in
      Ensures.mono
        (on_established-post _ p step.inv (ground (arith, found, f.inv.local_ok k p))
          (ground arith))
        (λ _ u kept. IsStep-IsKept step kept)

  pub on_drep-IsStep :
      (c : CmState) (k : ℕ) (key : CmFlowKey)
      → Inv t
      → Ensures (λ _ u. IsStep t u) (on_drep c k key t)
  unfolding on_drep
  on_drep-IsStep CmState.dreq_sent k key i = erase_flow-IsStep k key i
  on_drep-IsStep CmState.dreq_rcvd k key i = erase_flow-IsStep k key i
  on_drep-IsStep _ k key i = done (IsStep-refl i)
