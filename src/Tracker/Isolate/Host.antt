-- ===== src/Tracker/Isolate/Host.antt =====
-- The handlers for messages from the host touch one flow.
use libconntrack_cm.Base.{ℕ, ◌≡◌, refl, none}
use libconntrack_cm.Packet.{Dpdk, DynfieldOffsets, Mbuf}
use libconntrack_cm.Store.{CmState, CmFlowKey, Ptr, Tracker, null_key}
use libconntrack_cm.Tracker.Host.{
  on_req_sent, on_rej_sent, send_rep, on_rep_sent, on_rtu_sent, send_dreq, on_dreq_sent, req_sent,
  rej_sent, rep_sent, rtu_sent, dreq_sent, drep_sent,
}
use libconntrack_cm.Tracker.Ensures
use libconntrack_cm.Tracker.Ensures.{Ensures, done}
use libconntrack_cm.Tracker.Invariant.Write.{put}
use libconntrack_cm.Tracker.Repeat.{Found, Found-put}
use libconntrack_cm.Tracker.Isolate.{
  IsOnly, IsOnly-refl, IsOnly-trans, put-IsOnly, Isolates, establish-IsOnly, erase_flow-IsOnly,
  on_drep-IsOnly, add_new_flow-IsOnly, null_key-local, get_flow_then,
}

on_req_sent-IsOnly :
    (c : CmState) (p : Ptr) (qpn : ℕ) (t : Tracker)
    → Ensures (λ _ u. IsOnly p t u) (on_req_sent c p qpn t)
unfolding on_req_sent
on_req_sent-IsOnly CmState.idle p qpn t = done (put-IsOnly p _ t)
on_req_sent-IsOnly CmState.req_sent p qpn t = done (put-IsOnly p _ t)
on_req_sent-IsOnly _ p qpn t = done (IsOnly-refl p t)

on_rej_sent-IsOnly :
    (c : CmState) (k : ℕ) (key : CmFlowKey) (p : Ptr) (t : Tracker)
    → Found k key p t
    → Ensures (λ _ u. IsOnly p t u) (on_rej_sent c k key t)
unfolding on_rej_sent
on_rej_sent-IsOnly CmState.established k key p t f = done (IsOnly-refl p t)
on_rej_sent-IsOnly CmState.dreq_sent k key p t f = done (IsOnly-refl p t)
on_rej_sent-IsOnly CmState.dreq_rcvd k key p t f = done (IsOnly-refl p t)
on_rej_sent-IsOnly CmState.timewait k key p t f = done (IsOnly-refl p t)
on_rej_sent-IsOnly _ k key p t f = erase_flow-IsOnly k key p t f

send_rep-IsOnly :
    (p : Ptr) (k : ℕ) (key : CmFlowKey) (qpn : ℕ) (t : Tracker)
    → Found k key p t
    → t.local_map 0 ≡ none
    → Ensures (λ _ u. IsOnly p t u) (send_rep p k key qpn t)
unfolding send_rep
send_rep-IsOnly p k key qpn t f null =
    let s = record (t.cells p) { state = CmState.rep_sent } in
    Ensures.bind
      (add_new_flow-IsOnly k key key p (put t p s) (Found-put k key p p s f) null (λ _. refl))
      λ q u o. done (IsOnly-trans (put-IsOnly p s t) (IsOnly-trans o (put-IsOnly p _ u)))

on_rep_sent-IsOnly :
    (c : CmState) (p : Ptr) (k : ℕ) (key : CmFlowKey) (qpn : ℕ) (t : Tracker)
    → Found k key p t
    → t.local_map 0 ≡ none
    → Ensures (λ _ u. IsOnly p t u) (on_rep_sent c p k key qpn t)
unfolding on_rep_sent
on_rep_sent-IsOnly CmState.req_rcvd p k key qpn t f null = send_rep-IsOnly p k key qpn t f null
on_rep_sent-IsOnly CmState.mra_req_sent p k key qpn t f null = send_rep-IsOnly p k key qpn t f null
on_rep_sent-IsOnly _ p k key qpn t f null = done (IsOnly-refl p t)

on_rtu_sent-IsOnly :
    (c : CmState) (p : Ptr) (t : Tracker) → Ensures (λ _ u. IsOnly p t u) (on_rtu_sent c p t)
unfolding on_rtu_sent
on_rtu_sent-IsOnly CmState.rep_rcvd p t = establish-IsOnly p t
on_rtu_sent-IsOnly CmState.mra_rep_sent p t = establish-IsOnly p t
on_rtu_sent-IsOnly _ p t = done (IsOnly-refl p t)

on_dreq_sent-IsOnly :
    (c : CmState) (p : Ptr) (t : Tracker) → Ensures (λ _ u. IsOnly p t u) (on_dreq_sent c p t)
unfolding on_dreq_sent send_dreq
on_dreq_sent-IsOnly CmState.idle p t = done (put-IsOnly p _ t)
on_dreq_sent-IsOnly CmState.established p t = done (put-IsOnly p _ t)
on_dreq_sent-IsOnly CmState.dreq_sent p t = done (put-IsOnly p _ t)
on_dreq_sent-IsOnly CmState.dreq_rcvd p t = done (put-IsOnly p _ t)
on_dreq_sent-IsOnly _ p t = done (IsOnly-refl p t)

module _ (d : Dpdk) (parser : DynfieldOffsets) (m : Mbuf) where
  pub req_sent-Isolates : Isolates (req_sent d parser m)
  unfolding req_sent
  req_sent-Isolates t i =
      Ensures.bind_lift _ _ _
        λ msg _. get_flow_then _ null_key _ t i λ p u f null. on_req_sent-IsOnly _ p _ u

  pub rej_sent-Isolates : Isolates (rej_sent d parser m)
  unfolding rej_sent
  rej_sent-Isolates t i = Ensures.bind_lift _ _ _ λ msg _.
      Ensures.bind_lift _ _ _
        λ key _. get_flow_then _ key _ t i λ p u f null. on_rej_sent-IsOnly _ _ key p u f

  pub rep_sent-Isolates : Isolates (rep_sent d parser m)
  unfolding rep_sent
  rep_sent-Isolates t i = Ensures.bind_lift _ _ _ λ msg _.
      Ensures.bind_lift _ _ _
        λ key _. get_flow_then _ key _ t i λ p u f null. on_rep_sent-IsOnly _ p _ key _ u f null

  pub rtu_sent-Isolates : Isolates (rtu_sent d parser m)
  unfolding rtu_sent
  rtu_sent-Isolates t i =
      Ensures.bind_lift _ _ _
        λ msg _. get_flow_then _ null_key _ t i λ p u f null. on_rtu_sent-IsOnly _ p u

  pub dreq_sent-Isolates : Isolates (dreq_sent d parser m)
  unfolding dreq_sent
  dreq_sent-Isolates t i =
      Ensures.bind_lift _ _ _
        λ msg _. get_flow_then _ null_key _ t i λ p u f null. on_dreq_sent-IsOnly _ p u

  pub drep_sent-Isolates : Isolates (drep_sent d parser m)
  unfolding drep_sent
  drep_sent-Isolates t i = Ensures.bind_lift _ _ _ λ msg _. Ensures.bind_lift _ _ _ λ key _.
      get_flow_then _ null_key _ t i
        λ p u f null. on_drep-IsOnly _ _ null_key key p u f (null_key-local f)
