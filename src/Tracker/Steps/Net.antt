-- ===== src/Tracker/Steps/Net.antt =====
-- The handlers for messages from the network are steps.
use libconntrack_cm.Base.{ℕ, ◌≡◌, refl, true, false, arith}
use libconntrack_cm.Packet.{Dpdk, DynfieldOffsets, Mbuf}
use libconntrack_cm.Store.{CmState, CmFlowKey, null_key, Ptr, Tracker}
use libconntrack_cm.Tracker.Net.{
  on_req_received, on_rej_received, receive_rep, on_rep_received, on_rtu_received, receive_dreq,
  on_dreq_received, req_received, rej_received, rep_received, rtu_received, dreq_received,
  drep_received,
}
use libconntrack_cm.Tracker.Ensures
use libconntrack_cm.Tracker.Ensures.{Ensures, done}
use libconntrack_cm.Tracker.Edges.{edge, state_of, IsStep, IsStep-refl, IsStep-frame}
use libconntrack_cm.Tracker.Invariant.{settled, Inv}
use libconntrack_cm.Tracker.Invariant.Write.{unsettled-unmarked}
use libconntrack_cm.Tracker.Invariant.Flow.{get_flow-post, IsFlow}
use libconntrack_cm.Tracker.Invariant.Bound.{add_new_flow-post}
use libconntrack_cm.Tracker.Steps.{
  put_unmarked-IsStep, put-settled-IsStep, erase_flow-IsStep, establish-IsStep, on_drep-IsStep,
}

on_req_received-IsStep :
    (c : CmState) (p : Ptr) (qpn : ℕ) (t : Tracker)
    → state_of t p ≡ c
    → Inv t
    → Ensures (λ _ u. IsStep t u) (on_req_received c p qpn t)
unfolding on_req_received
on_req_received-IsStep CmState.idle p qpn t e i =
    done (put_unmarked-IsStep p _ i (rw e) refl refl refl (rw e))
on_req_received-IsStep CmState.req_rcvd p qpn t e i =
    Ensures.bind_check _ _ _ λ same. done (put_unmarked-IsStep p _ i (rw e) refl refl refl (rw e))
on_req_received-IsStep _ p qpn t e i = done (IsStep-refl i)

on_rej_received-IsStep :
    (c : CmState) (k : ℕ) (key : CmFlowKey) (t : Tracker)
    → Inv t
    → Ensures (λ _ u. IsStep t u) (on_rej_received c k key t)
unfolding on_rej_received
on_rej_received-IsStep CmState.req_rcvd k key t i = done (IsStep-refl i)
on_rej_received-IsStep CmState.dreq_rcvd k key t i = done (IsStep-refl i)
on_rej_received-IsStep CmState.timewait k key t i = done (IsStep-refl i)
on_rej_received-IsStep _ k key t i = erase_flow-IsStep k key i

receive_rep-IsStep :
    (t₀ : Tracker) (p : Ptr) (k : ℕ) (key : CmFlowKey) (qpn : ℕ) (t : Tracker)
    → settled (state_of t p) ≡ false
    → edge (state_of t p) CmState.rep_rcvd ≡ true
    → IsFlow t₀ k null_key p t
    → Ensures (λ _ u. IsStep t u) (receive_rep p k key qpn t)
unfolding receive_rep
receive_rep-IsStep t₀ p k key qpn t e e' f =
    let mark = unsettled-unmarked f.inv p e in
    let s = record (t.cells p) { state = CmState.rep_rcvd; remote_qpn = qpn } in
    let step = put_unmarked-IsStep p s f.inv e refl refl refl e' in
    Ensures.bind
      (add_new_flow-post k key _ step.inv λ q h. ground (arith, f.inv.local_ok k q, f.by_local))
      λ q u b.
        let same = b.frame.same in
        done (record {
          inv = b.inv;
          grows = b.frame.grows;
          old = λ r h. ground (arith, step.old r h, (same r h).state);
          new = λ r h j. ground (arith, b.frame.fresh r h j);
        })

on_rep_received-IsStep :
    (c : CmState) (t₀ : Tracker) (p : Ptr) (k : ℕ) (key : CmFlowKey) (qpn : ℕ) (t : Tracker)
    → state_of t p ≡ c
    → IsFlow t₀ k null_key p t
    → Ensures (λ _ u. IsStep t u) (on_rep_received c p k key qpn t)
unfolding on_rep_received
on_rep_received-IsStep CmState.req_sent t₀ p k key qpn t e f =
    receive_rep-IsStep t₀ p k key qpn t (rw e) (rw e) f
on_rep_received-IsStep CmState.mra_req_rcvd t₀ p k key qpn t e f =
    receive_rep-IsStep t₀ p k key qpn t (rw e) (rw e) f
on_rep_received-IsStep _ t₀ p k key qpn t e f = done (IsStep-refl f.inv)

on_rtu_received-IsStep :
    (c : CmState) (t₀ : Tracker) (p : Ptr) (k : ℕ) (t : Tracker)
    → state_of t p ≡ c
    → IsFlow t₀ k null_key p t
    → Ensures (λ _ u. IsStep t u) (on_rtu_received c p t)
unfolding on_rtu_received
on_rtu_received-IsStep CmState.rep_sent t₀ p k t e f = establish-IsStep t₀ k p f (rw e) (rw e)
on_rtu_received-IsStep CmState.mra_rep_rcvd t₀ p k t e f = establish-IsStep t₀ k p f (rw e) (rw e)
on_rtu_received-IsStep _ t₀ p k t e f = done (IsStep-refl f.inv)

on_dreq_received-IsStep :
    (c : CmState) (p : Ptr) (t : Tracker)
    → state_of t p ≡ c
    → Inv t
    → Ensures (λ _ u. IsStep t u) (on_dreq_received c p t)
unfolding on_dreq_received receive_dreq
on_dreq_received-IsStep CmState.idle p t e i = done (IsStep-refl i)
on_dreq_received-IsStep CmState.req_sent p t e i = done (IsStep-refl i)
on_dreq_received-IsStep CmState.req_rcvd p t e i = done (IsStep-refl i)
on_dreq_received-IsStep CmState.mra_req_rcvd p t e i = done (IsStep-refl i)
on_dreq_received-IsStep CmState.mra_req_sent p t e i = done (IsStep-refl i)
on_dreq_received-IsStep CmState.mra_rep_sent p t e i = done (IsStep-refl i)
on_dreq_received-IsStep CmState.rep_rcvd p t e i = done (IsStep-refl i)
on_dreq_received-IsStep _ p t e i = done (put-settled-IsStep p _ i refl (rw e))

module _ (d : Dpdk) (parser : DynfieldOffsets) (m : Mbuf) (t : Tracker) (i : Inv t) where
  pub req_received-IsStep : Ensures (λ _ u. IsStep t u) (req_received d parser m t)
  unfolding req_received
  req_received-IsStep = Ensures.bind_lift _ _ _ λ msg _. Ensures.bind_lift _ _ _ λ key _.
      Ensures.bind (get_flow-post 0 key t i) λ p u f.
        Ensures.mono (on_req_received-IsStep _ p _ u refl f.inv) λ _ v s. IsStep-frame f.frame s

  pub rej_received-IsStep : Ensures (λ _ u. IsStep t u) (rej_received d parser m t)
  unfolding rej_received
  rej_received-IsStep = Ensures.bind_lift _ _ _ λ msg _. Ensures.bind_lift _ _ _ λ key _.
      Ensures.bind (get_flow-post _ key t i) λ p u f.
        Ensures.mono (on_rej_received-IsStep _ _ key u f.inv) λ _ v s. IsStep-frame f.frame s

  pub rep_received-IsStep : Ensures (λ _ u. IsStep t u) (rep_received d parser m t)
  unfolding rep_received
  rep_received-IsStep = Ensures.bind_lift _ _ _ λ msg _. Ensures.bind_lift _ _ _ λ key _.
      Ensures.bind (get_flow-post _ null_key t i) λ p u f.
        Ensures.mono (on_rep_received-IsStep _ t p _ key _ u refl f) λ _ v s. IsStep-frame f.frame s

  pub rtu_received-IsStep : Ensures (λ _ u. IsStep t u) (rtu_received d parser m t)
  unfolding rtu_received
  rtu_received-IsStep = Ensures.bind_lift _ _ _ λ msg _.
      Ensures.bind (get_flow-post _ null_key t i) λ p u f.
        Ensures.mono (on_rtu_received-IsStep _ t p _ u refl f) λ _ v s. IsStep-frame f.frame s

  pub dreq_received-IsStep : Ensures (λ _ u. IsStep t u) (dreq_received d parser m t)
  unfolding dreq_received
  dreq_received-IsStep = Ensures.bind_lift _ _ _ λ msg _.
      Ensures.bind (get_flow-post _ null_key t i) λ p u f.
        Ensures.mono (on_dreq_received-IsStep _ p u refl f.inv) λ _ v s. IsStep-frame f.frame s

  pub drep_received-IsStep : Ensures (λ _ u. IsStep t u) (drep_received d parser m t)
  unfolding drep_received
  drep_received-IsStep = Ensures.bind_lift _ _ _ λ msg _. Ensures.bind_lift _ _ _ λ key _.
      Ensures.bind (get_flow-post _ null_key t i)
        λ p u f. Ensures.mono (on_drep-IsStep _ _ key f.inv) λ _ v s. IsStep-frame f.frame s
