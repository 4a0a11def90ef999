-- ===== src/Tracker/Steps/Host.antt =====
-- The handlers for messages from the host are steps.
use libconntrack_cm.Base.{ℕ, ◌≡◌, refl, true, false, arith}
use libconntrack_cm.Packet.{Dpdk, DynfieldOffsets, Mbuf}
use libconntrack_cm.Store.{CmState, CmFlowKey, null_key, Ptr, Tracker}
use libconntrack_cm.Tracker.Host.{
  on_req_sent, on_rej_sent, send_rep, on_rep_sent, on_rtu_sent, send_dreq, on_dreq_sent, req_sent,
  rej_sent, rep_sent, rtu_sent, dreq_sent, drep_sent,
}
use libconntrack_cm.Tracker.Ensures
use libconntrack_cm.Tracker.Ensures.{Ensures, done}
use libconntrack_cm.Tracker.Edges.{edge, edge_refl, state_of, IsStep, IsStep-refl, IsStep-frame}
use libconntrack_cm.Tracker.Invariant.{settled, Inv}
use libconntrack_cm.Tracker.Invariant.Write.{put_unmarked-Inv, unsettled-unmarked}
use libconntrack_cm.Tracker.Invariant.Flow.{get_flow-post, IsFlow}
use libconntrack_cm.Tracker.Invariant.Bound.{add_new_flow-post}
use libconntrack_cm.Tracker.Steps.{
  put_unmarked-IsStep, put-settled-IsStep, erase_flow-IsStep, establish-IsStep, on_drep-IsStep,
}

on_req_sent-IsStep :
    (c : CmState) (p : Ptr) (qpn : ℕ) (t : Tracker)
    → state_of t p ≡ c
    → Inv t
    → Ensures (λ _ u. IsStep t u) (on_req_sent c p qpn t)
unfolding on_req_sent
on_req_sent-IsStep CmState.idle p qpn t e i =
    done (put_unmarked-IsStep p _ i (rw e) refl refl refl (rw e))
on_req_sent-IsStep CmState.req_sent p qpn t e i =
    done (put_unmarked-IsStep p _ i (rw e) refl refl refl (rw e))
on_req_sent-IsStep _ p qpn t e i = done (IsStep-refl i)

on_rej_sent-IsStep :
    (c : CmState) (k : ℕ) (key : CmFlowKey) (t : Tracker)
    → Inv t
    → Ensures (λ _ u. IsStep t u) (on_rej_sent c k key t)
unfolding on_rej_sent
on_rej_sent-IsStep CmState.established k key t i = done (IsStep-refl i)
on_rej_sent-IsStep CmState.dreq_sent k key t i = done (IsStep-refl i)
on_rej_sent-IsStep CmState.dreq_rcvd k key t i = done (IsStep-refl i)
on_rej_sent-IsStep CmState.timewait k key t i = done (IsStep-refl i)
on_rej_sent-IsStep _ k key t i = erase_flow-IsStep k key i

send_rep-IsStep :
    (t₀ : Tracker) (p : Ptr) (k : ℕ) (key : CmFlowKey) (qpn : ℕ) (t : Tracker)
    → settled (state_of t p) ≡ false
    → edge (state_of t p) CmState.rep_sent ≡ true
    → IsFlow t₀ k key p t
    → Ensures (λ _ u. IsStep t u) (send_rep p k key qpn t)
unfolding send_rep
send_rep-IsStep t₀ p k key qpn t e e' f =
    let mark = unsettled-unmarked f.inv p e in
    let s = record (t.cells p) { state = CmState.rep_sent } in
    let step = put_unmarked-IsStep p s f.inv e refl refl refl e' in
    Ensures.bind
      (add_new_flow-post k key _ step.inv λ q h. ground (arith, f.inv.local_ok k q, f.by_local))
      λ q u b.
        let same = b.frame.same in
        done (record {
          inv =
              put_unmarked-Inv b.inv p _ (ground (arith, (same p f.allocated).mark)) refl refl
                (ground (arith, (same p f.allocated).mark));
          grows = b.frame.grows;
          old = λ r h. ground (arith, step.old r h, (same r h).state, edge_refl (state_of t r));
          new = λ r h j. ground (arith, b.frame.fresh r h j, f.allocated);
        })

on_rep_sent-IsStep :
    (c : CmState) (t₀ : Tracker) (p : Ptr) (k : ℕ) (key : CmFlowKey) (qpn : ℕ) (t : Tracker)
    → state_of t p ≡ c
    → IsFlow t₀ k key p t
    → Ensures (λ _ u. IsStep t u) (on_rep_sent c p k key qpn t)
unfolding on_rep_sent
on_rep_sent-IsStep CmState.req_rcvd t₀ p k key qpn t e f =
    send_rep-IsStep t₀ p k key qpn t (rw e) (rw e) f
on_rep_sent-IsStep CmState.mra_req_sent t₀ p k key qpn t e f =
    send_rep-IsStep t₀ p k key qpn t (rw e) (rw e) f
on_rep_sent-IsStep _ t₀ p k key qpn t e f = done (IsStep-refl f.inv)

on_rtu_sent-IsStep :
    (c : CmState) (t₀ : Tracker) (p : Ptr) (k : ℕ) (t : Tracker)
    → state_of t p ≡ c
    → IsFlow t₀ k null_key p t
    → Ensures (λ _ u. IsStep t u) (on_rtu_sent c p t)
unfolding on_rtu_sent
on_rtu_sent-IsStep CmState.rep_rcvd t₀ p k t e f = establish-IsStep t₀ k p f (rw e) (rw e)
on_rtu_sent-IsStep CmState.mra_rep_sent t₀ p k t e f = establish-IsStep t₀ k p f (rw e) (rw e)
on_rtu_sent-IsStep _ t₀ p k t e f = done (IsStep-refl f.inv)

on_dreq_sent-IsStep :
    (c : CmState) (p : Ptr) (t : Tracker)
    → state_of t p ≡ c
    → Inv t
    → Ensures (λ _ u. IsStep t u) (on_dreq_sent c p t)
unfolding on_dreq_sent send_dreq
on_dreq_sent-IsStep CmState.idle p t e i = done (put-settled-IsStep p _ i refl (rw e))
on_dreq_sent-IsStep CmState.established p t e i = done (put-settled-IsStep p _ i refl (rw e))
on_dreq_sent-IsStep CmState.dreq_sent p t e i = done (put-settled-IsStep p _ i refl (rw e))
on_dreq_sent-IsStep CmState.dreq_rcvd p t e i = done (put-settled-IsStep p _ i refl (rw e))
on_dreq_sent-IsStep _ p t e i = done (IsStep-refl i)

module _ (d : Dpdk) (parser : DynfieldOffsets) (m : Mbuf) (t : Tracker) (i : Inv t) where
  pub req_sent-IsStep : Ensures (λ _ u. IsStep t u) (req_sent d parser m t)
  unfolding req_sent
  req_sent-IsStep = Ensures.bind_lift _ _ _ λ msg _.
      Ensures.bind (get_flow-post _ null_key t i) λ p u f.
        Ensures.mono (on_req_sent-IsStep _ p _ u refl f.inv) λ _ v s. IsStep-frame f.frame s

  pub rej_sent-IsStep : Ensures (λ _ u. IsStep t u) (rej_sent d parser m t)
  unfolding rej_sent
  rej_sent-IsStep = Ensures.bind_lift _ _ _ λ msg _. Ensures.bind_lift _ _ _ λ key _.
      Ensures.bind (get_flow-post _ key t i)
        λ p u f. Ensures.mono (on_rej_sent-IsStep _ _ key u f.inv) λ _ v s. IsStep-frame f.frame s

  pub rep_sent-IsStep : Ensures (λ _ u. IsStep t u) (rep_sent d parser m t)
  unfolding rep_sent
  rep_sent-IsStep = Ensures.bind_lift _ _ _ λ msg _. Ensures.bind_lift _ _ _ λ key _.
      Ensures.bind (get_flow-post _ key t i) λ p u f.
        Ensures.mono (on_rep_sent-IsStep _ t p _ key _ u refl f) λ _ v s. IsStep-frame f.frame s

  pub rtu_sent-IsStep : Ensures (λ _ u. IsStep t u) (rtu_sent d parser m t)
  unfolding rtu_sent
  rtu_sent-IsStep = Ensures.bind_lift _ _ _ λ msg _.
      Ensures.bind (get_flow-post _ null_key t i)
        λ p u f. Ensures.mono (on_rtu_sent-IsStep _ t p _ u refl f) λ _ v s. IsStep-frame f.frame s

  pub dreq_sent-IsStep : Ensures (λ _ u. IsStep t u) (dreq_sent d parser m t)
  unfolding dreq_sent
  dreq_sent-IsStep = Ensures.bind_lift _ _ _ λ msg _.
      Ensures.bind (get_flow-post _ null_key t i)
        λ p u f. Ensures.mono (on_dreq_sent-IsStep _ p u refl f.inv) λ _ v s. IsStep-frame f.frame s

  pub drep_sent-IsStep : Ensures (λ _ u. IsStep t u) (drep_sent d parser m t)
  unfolding drep_sent
  drep_sent-IsStep = Ensures.bind_lift _ _ _ λ msg _. Ensures.bind_lift _ _ _ λ key _.
      Ensures.bind (get_flow-post _ null_key t i)
        λ p u f. Ensures.mono (on_drep-IsStep _ _ key f.inv) λ _ v s. IsStep-frame f.frame s
