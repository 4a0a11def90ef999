-- ===== src/Tracker/Isolate/Net.antt =====
-- The handlers for messages from the network touch one flow.
use libconntrack_cm.Base.{ℕ, ◌≡◌, none}
use libconntrack_cm.Packet.{Dpdk, DynfieldOffsets, Mbuf}
use libconntrack_cm.Store.{CmState, CmFlowKey, Ptr, Tracker, null_key}
use libconntrack_cm.Tracker.Net.{
  receive_req, on_req_received, on_rej_received, receive_rep, on_rep_received, on_rtu_received,
  receive_dreq, on_dreq_received, req_received, rej_received, rep_received, rtu_received,
  dreq_received, drep_received,
}
use libconntrack_cm.Tracker.Ensures
use libconntrack_cm.Tracker.Ensures.{Ensures, done}
use libconntrack_cm.Tracker.Invariant.Write.{put}
use libconntrack_cm.Tracker.Repeat.{Found, Found-put}
use libconntrack_cm.Tracker.Isolate.{
  IsOnly, IsOnly-refl, IsOnly-trans, put-IsOnly, Isolates, establish-IsOnly, erase_flow-IsOnly,
  on_drep-IsOnly, add_new_flow-IsOnly, null_key-local, get_flow_then,
}

on_req_received-IsOnly :
    (c : CmState) (p : Ptr) (qpn : ℕ) (t : Tracker)
    → Ensures (λ _ u. IsOnly p t u) (on_req_received c p qpn t)
unfolding on_req_received receive_req
on_req_received-IsOnly CmState.idle p qpn t = done (put-IsOnly p _ t)
on_req_received-IsOnly CmState.req_rcvd p qpn t =
    Ensures.bind_check _ _ _ λ same. done (put-IsOnly p _ t)
on_req_received-IsOnly _ p qpn t = done (IsOnly-refl p t)

on_rej_received-IsOnly :
    (c : CmState) (k : ℕ) (key : CmFlowKey) (p : Ptr) (t : Tracker)
    → Found k key p t
    → Ensures (λ _ u. IsOnly p t u) (on_rej_received c k key t)
unfolding on_rej_received
on_rej_received-IsOnly CmState.req_rcvd k key p t f = done (IsOnly-refl p t)
on_rej_received-IsOnly CmState.dreq_rcvd k key p t f = done (IsOnly-refl p t)
on_rej_received-IsOnly CmState.timewait k key p t f = done (IsOnly-refl p t)
on_rej_received-IsOnly _ k key p t f = erase_flow-IsOnly k key p t f

receive_rep-IsOnly :
    (p : Ptr) (k : ℕ) (sender : CmFlowKey) (qpn : ℕ) (t : Tracker)
    → Found k null_key p t
    → t.local_map 0 ≡ none
    → Ensures (λ _ u. IsOnly p t u) (receive_rep p k sender qpn t)
unfolding receive_rep
receive_rep-IsOnly p k sender qpn t f null =
    let s = record (t.cells p) { state = CmState.rep_rcvd; remote_qpn = qpn } in
    Ensures.bind
      (add_new_flow-IsOnly k null_key sender p (put t p s) (Found-put k null_key p p s f) null
        (λ z. absurd (null_key-local f z)))
      λ q u o. done (IsOnly-trans (put-IsOnly p s t) o)

on_rep_received-IsOnly :
    (c : CmState) (p : Ptr) (k : ℕ) (sender : CmFlowKey) (qpn : ℕ) (t : Tracker)
    → Found k null_key p t
    → t.local_map 0 ≡ none
    → Ensures (λ _ u. IsOnly p t u) (on_rep_received c p k sender qpn t)
unfolding on_rep_received
on_rep_received-IsOnly CmState.req_sent p k sender qpn t f null =
    receive_rep-IsOnly p k sender qpn t f null
on_rep_received-IsOnly CmState.mra_req_rcvd p k sender qpn t f null =
    receive_rep-IsOnly p k sender qpn t f null
on_rep_received-IsOnly _ p k sender qpn t f null = done (IsOnly-refl p t)

on_rtu_received-IsOnly :
    (c : CmState) (p : Ptr) (t : Tracker) → Ensures (λ _ u. IsOnly p t u) (on_rtu_received c p t)
unfolding on_rtu_received
on_rtu_received-IsOnly CmState.rep_sent p t = establish-IsOnly p t
on_rtu_received-IsOnly CmState.mra_rep_rcvd p t = establish-IsOnly p t
on_rtu_received-IsOnly _ p t = done (IsOnly-refl p t)

on_dreq_received-IsOnly :
    (c : CmState) (p : Ptr) (t : Tracker) → Ensures (λ _ u. IsOnly p t u) (on_dreq_received c p t)
unfolding on_dreq_received receive_dreq
on_dreq_received-IsOnly CmState.rep_sent p t = done (put-IsOnly p _ t)
on_dreq_received-IsOnly CmState.dreq_sent p t = done (put-IsOnly p _ t)
on_dreq_received-IsOnly CmState.established p t = done (put-IsOnly p _ t)
on_dreq_received-IsOnly CmState.mra_rep_rcvd p t = done (put-IsOnly p _ t)
on_dreq_received-IsOnly CmState.timewait p t = done (put-IsOnly p _ t)
on_dreq_received-IsOnly CmState.dreq_rcvd p t = done (put-IsOnly p _ t)
on_dreq_received-IsOnly _ p t = done (IsOnly-refl p t)

module _ (d : Dpdk) (parser : DynfieldOffsets) (m : Mbuf) where
  pub req_received-Isolates : Isolates (req_received d parser m)
  unfolding req_received
  req_received-Isolates t i = Ensures.bind_lift _ _ _ λ msg _.
      Ensures.bind_lift _ _ _
        λ key _. get_flow_then 0 key _ t i λ p u f null. on_req_received-IsOnly _ p _ u

  pub rej_received-Isolates : Isolates (rej_received d parser m)
  unfolding rej_received
  rej_received-Isolates t i = Ensures.bind_lift _ _ _ λ msg _.
      Ensures.bind_lift _ _ _
        λ key _. get_flow_then _ key _ t i λ p u f null. on_rej_received-IsOnly _ _ key p u f

  pub rep_received-Isolates : Isolates (rep_received d parser m)
  unfolding rep_received
  rep_received-Isolates t i = Ensures.bind_lift _ _ _ λ msg _. Ensures.bind_lift _ _ _ λ key _.
      get_flow_then _ null_key _ t i λ p u f null. on_rep_received-IsOnly _ p _ key _ u f null

  pub rtu_received-Isolates : Isolates (rtu_received d parser m)
  unfolding rtu_received
  rtu_received-Isolates t i =
      Ensures.bind_lift _ _ _
        λ msg _. get_flow_then _ null_key _ t i λ p u f null. on_rtu_received-IsOnly _ p u

  pub dreq_received-Isolates : Isolates (dreq_received d parser m)
  unfolding dreq_received
  dreq_received-Isolates t i =
      Ensures.bind_lift _ _ _
        λ msg _. get_flow_then _ null_key _ t i λ p u f null. on_dreq_received-IsOnly _ p u

  pub drep_received-Isolates : Isolates (drep_received d parser m)
  unfolding drep_received
  drep_received-Isolates t i = Ensures.bind_lift _ _ _ λ msg _. Ensures.bind_lift _ _ _ λ key _.
      get_flow_then _ null_key _ t i
        λ p u f null. on_drep-IsOnly _ _ null_key key p u f (null_key-local f)
