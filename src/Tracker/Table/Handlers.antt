-- ===== src/Tracker/Table/Handlers.antt =====
-- What each handler does to the QPN table and to the number of flows.
use libconntrack_cm.Base.{ℕ, inl, refl}
use libconntrack_cm.Packet.{Dpdk, DynfieldOffsets, Mbuf}
use libconntrack_cm.Store.{CmFlowKey, null_key, Ptr, Tracker, M, and_then}
use libconntrack_cm.Tracker.{get_flow}
use libconntrack_cm.Tracker.Host.{req_sent, rej_sent, rep_sent, rtu_sent, dreq_sent, drep_sent}
use libconntrack_cm.Tracker.Net.{
  req_received, rej_received, rep_received, rtu_received, dreq_received, drep_received,
}
use libconntrack_cm.Tracker.Dispatch.{cm_rtu_attr_id, cm_rej_attr_id, cm_drep_attr_id}
use libconntrack_cm.Tracker.Ensures
use libconntrack_cm.Tracker.Ensures.{Ensures, done}
use libconntrack_cm.Tracker.Invariant.{Inv}
use libconntrack_cm.Tracker.Invariant.Flow.{get_flow-post, IsFlow}
use libconntrack_cm.Tracker.Steps.{null_key-flow}
use libconntrack_cm.Tracker.Table.{IsAct, IsAct-after}
use libconntrack_cm.Tracker.Table.Quiet.{get_flow-IsQuiet}
use libconntrack_cm.Tracker.Table.Acts.{IsMove}
use libconntrack_cm.Tracker.Table.Switches.{
  on_req_sent-IsMove, on_req_received-IsMove, on_dreq_sent-IsMove, on_dreq_received-IsMove,
  on_rep_sent-IsMove, on_rep_received-IsMove, on_rtu_sent-IsMove, on_rtu_received-IsMove,
  on_rej_sent-IsMove, on_rej_received-IsMove, on_drep-IsMove,
}

-- A lookup, and then a switch.
after_lookup :
    {a : ℕ} (k : ℕ) (key : CmFlowKey) (t : Tracker) (rest : Ptr → M (Unit {0}))
    → Inv t
    → ((p : Ptr) (u : Tracker) → IsFlow t k key p u → Ensures (λ _ v. IsMove a u v) (rest p u))
    → Ensures (λ _ v. IsAct a t v) (and_then (get_flow k key t) rest)
after_lookup k key t rest i moves =
    Ensures.bind (Ensures.both (get_flow-IsQuiet k key t) (get_flow-post k key t i))
      λ p u (q, f). Ensures.mono (moves p u f) λ _ v s. IsAct-after q s.table s.next

module _ (d : Dpdk) (parser : DynfieldOffsets) (m : Mbuf) (t : Tracker) (i : Inv t) where
  pub req_sent-IsAct : (a : ℕ) → Ensures (λ _ u. IsAct a t u) (req_sent d parser m t)
  unfolding req_sent
  req_sent-IsAct a =
      Ensures.bind_lift _ _ _
        λ msg _. after_lookup _ null_key t _ i λ p u f. on_req_sent-IsMove a _ p _ u

  pub rej_sent-IsAct : Ensures (λ _ u. IsAct cm_rej_attr_id t u) (rej_sent d parser m t)
  unfolding rej_sent
  rej_sent-IsAct = Ensures.bind_lift _ _ _ λ msg _.
      Ensures.bind_lift _ _ _
        λ key _. after_lookup _ key t _ i λ p u f. on_rej_sent-IsMove _ _ key u

  pub rep_sent-IsAct : (a : ℕ) → Ensures (λ _ u. IsAct a t u) (rep_sent d parser m t)
  unfolding rep_sent
  rep_sent-IsAct a = Ensures.bind_lift _ _ _ λ msg _.
      Ensures.bind_lift _ _ _
        λ key _. after_lookup _ key t _ i λ p u f. on_rep_sent-IsMove a _ p _ key _ u f

  pub rtu_sent-IsAct : Ensures (λ _ u. IsAct cm_rtu_attr_id t u) (rtu_sent d parser m t)
  unfolding rtu_sent
  rtu_sent-IsAct =
      Ensures.bind_lift _ _ _
        λ msg _. after_lookup _ null_key t _ i λ p u f. on_rtu_sent-IsMove _ p u

  pub dreq_sent-IsAct : (a : ℕ) → Ensures (λ _ u. IsAct a t u) (dreq_sent d parser m t)
  unfolding dreq_sent
  dreq_sent-IsAct a =
      Ensures.bind_lift _ _ _
        λ msg _. after_lookup _ null_key t _ i λ p u f. on_dreq_sent-IsMove a _ p u

  pub drep_sent-IsAct : Ensures (λ _ u. IsAct cm_drep_attr_id t u) (drep_sent d parser m t)
  unfolding drep_sent
  drep_sent-IsAct = Ensures.bind_lift _ _ _ λ msg _.
      Ensures.bind_lift _ _ _
        λ key _. after_lookup _ null_key t _ i λ p u f. on_drep-IsMove _ _ key u

  pub req_received-IsAct : (a : ℕ) → Ensures (λ _ u. IsAct a t u) (req_received d parser m t)
  unfolding req_received
  req_received-IsAct a = Ensures.bind_lift _ _ _ λ msg _.
      Ensures.bind_lift _ _ _
        λ key _. after_lookup 0 key t _ i λ p u f. on_req_received-IsMove a _ p _ u

  pub rej_received-IsAct : Ensures (λ _ u. IsAct cm_rej_attr_id t u) (rej_received d parser m t)
  unfolding rej_received
  rej_received-IsAct = Ensures.bind_lift _ _ _ λ msg _.
      Ensures.bind_lift _ _ _
        λ key _. after_lookup _ key t _ i λ p u f. on_rej_received-IsMove _ _ key u

  pub rep_received-IsAct : (a : ℕ) → Ensures (λ _ u. IsAct a t u) (rep_received d parser m t)
  unfolding rep_received
  rep_received-IsAct a = Ensures.bind_lift _ _ _ λ msg _. Ensures.bind_lift _ _ _ λ key _.
      after_lookup _ null_key t _ i λ p u f.
        on_rep_received-IsMove a _ p _ key _ u (inl (rw (f.by_local (null_key-flow f)) refl))

  pub rtu_received-IsAct : Ensures (λ _ u. IsAct cm_rtu_attr_id t u) (rtu_received d parser m t)
  unfolding rtu_received
  rtu_received-IsAct =
      Ensures.bind_lift _ _ _
        λ msg _. after_lookup _ null_key t _ i λ p u f. on_rtu_received-IsMove _ p u

  pub dreq_received-IsAct : (a : ℕ) → Ensures (λ _ u. IsAct a t u) (dreq_received d parser m t)
  unfolding dreq_received
  dreq_received-IsAct a =
      Ensures.bind_lift _ _ _
        λ msg _. after_lookup _ null_key t _ i λ p u f. on_dreq_received-IsMove a _ p u

  pub drep_received-IsAct : Ensures (λ _ u. IsAct cm_drep_attr_id t u) (drep_received d parser m t)
  unfolding drep_received
  drep_received-IsAct = Ensures.bind_lift _ _ _ λ msg _.
      Ensures.bind_lift _ _ _
        λ key _. after_lookup _ null_key t _ i λ p u f. on_drep-IsMove _ _ key u
