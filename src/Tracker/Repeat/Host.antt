-- ===== src/Tracker/Repeat/Host.antt =====
-- The handlers for a REQ, a REP, an RTU and a DREQ from the host repeat.
use libconntrack_cm.Base.{ℕ, ◌<◌, ◌≡◌, refl, ap, arith, ◌∙◌}
use libconntrack_cm.Packet.{Dpdk, DynfieldOffsets, Mbuf, ok}
use libconntrack_cm.Iba.{iba_get}
use libconntrack_cm.Cm.Req.{cm_req_local_comm_id, cm_req_local_qpn}
use libconntrack_cm.Cm.Rep.{cm_rep_local_comm_id, cm_rep_remote_comm_id, cm_rep_local_qpn}
use libconntrack_cm.Cm.Rtu.{cm_rtu_local_comm_id}
use libconntrack_cm.Cm.Dreq.{cm_dreq_local_comm_id}
use libconntrack_cm.Store.{CmState, CmFlowKey, Ptr, Tracker, null_key, lift}
use libconntrack_cm.Tracker.Message.{mad_header, from_dest}
use libconntrack_cm.Tracker.Host.{
  on_req_sent, send_rep, on_rep_sent, on_rtu_sent, send_dreq, on_dreq_sent, req_sent, rep_sent,
  rtu_sent, dreq_sent,
}
use libconntrack_cm.Tracker.Ensures
use libconntrack_cm.Tracker.Ensures.{Ensures, done}
use libconntrack_cm.Tracker.Edges.{state_of}
use libconntrack_cm.Tracker.Invariant.Write.{put}
use libconntrack_cm.Tracker.HandshakeFlow.{==-refl}
use libconntrack_cm.Tracker.Lookup.{add_new_flow-IsLookup}
use libconntrack_cm.Tracker.Repeat.{
  establish-Found, Found, Found-Lookup, Found-put, get_flow-Found, get_flow-finds, Again, Repeats,
  put-again,
}

module _ (k : ℕ) (key : CmFlowKey) (p : Ptr) where
  req-Again :
      (qpn : ℕ) (t : Tracker)
      → Found k key p t
      → Again k key p
          (λ c. on_req_sent c p qpn)
          (put t p (record (t.cells p) { state = CmState.req_sent; local_qpn = qpn }))
  unfolding on_req_sent
  req-Again qpn t f =
      let s = record (t.cells p) { state = CmState.req_sent; local_qpn = qpn } in
      (
        Found-put k key p p s f,
        rw (==-refl p, on_req_sent) (rw (==-refl p) (ap (λ u. ok (tt, u)) (put-again t p s))),
      )

  on_req_sent-Again :
      (c : CmState) (qpn : ℕ) (t : Tracker)
      → state_of t p ≡ c
      → Found k key p t
      → Ensures (λ _ u. Again k key p (λ c. on_req_sent c p qpn) u) (on_req_sent c p qpn t)
  unfolding on_req_sent
  on_req_sent-Again CmState.idle qpn t e f = done (req-Again qpn t f)
  on_req_sent-Again CmState.req_sent qpn t e f = done (req-Again qpn t f)
  on_req_sent-Again _ qpn t e f = done (f, rw e refl)

  dreq-Again :
      (t : Tracker)
      → Found k key p t
      → Again k key p
          (λ c. on_dreq_sent c p)
          (put t p (record (t.cells p) { state = CmState.dreq_sent }))
  unfolding on_dreq_sent
  dreq-Again t f =
      let s = record (t.cells p) { state = CmState.dreq_sent } in
      (
        Found-put k key p p s f,
        rw (==-refl p, on_dreq_sent)
            (rw (==-refl p, send_dreq) (ap (λ u. ok (tt, u)) (put-again t p s))),
      )

  on_dreq_sent-Again :
      (c : CmState) (t : Tracker)
      → state_of t p ≡ c
      → Found k key p t
      → Ensures (λ _ u. Again k key p (λ c. on_dreq_sent c p) u) (on_dreq_sent c p t)
  unfolding on_dreq_sent
  on_dreq_sent-Again CmState.idle t e f = done (dreq-Again t f)
  on_dreq_sent-Again CmState.established t e f = done (dreq-Again t f)
  on_dreq_sent-Again CmState.dreq_sent t e f = done (dreq-Again t f)
  on_dreq_sent-Again CmState.dreq_rcvd t e f = done (dreq-Again t f)
  on_dreq_sent-Again _ t e f = done (f, rw e refl)

  send_rep-Found :
      (qpn : ℕ) (t : Tracker)
      → Found k key p t
      → p < t.next
      → Ensures
          (λ _ u. Found k key p u × (state_of u p ≡ CmState.rep_sent))
          (send_rep p k key qpn t)
  unfolding send_rep
  send_rep-Found qpn t f lt =
      let s = record (t.cells p) { state = CmState.rep_sent } in
      Ensures.bind (add_new_flow-IsLookup k key (put t p s)) λ q u l. done (
        Found-put k key p p _ (Found-Lookup k key p q (Found-put k key p p s f) l),
        rw (==-refl p, state_of) (l.states p lt ∙ ground arith),
      )

  on_rep_sent-Again :
      (c : CmState) (qpn : ℕ) (t : Tracker)
      → state_of t p ≡ c
      → Found k key p t
      → p < t.next
      → Ensures
          (λ _ u. Again k key p (λ c. on_rep_sent c p k key qpn) u)
          (on_rep_sent c p k key qpn t)
  unfolding on_rep_sent
  on_rep_sent-Again CmState.req_rcvd qpn t e f lt =
      Ensures.mono (send_rep-Found qpn t f lt) λ _ u (g, now). (g, rw now refl)
  on_rep_sent-Again CmState.mra_req_sent qpn t e f lt =
      Ensures.mono (send_rep-Found qpn t f lt) λ _ u (g, now). (g, rw now refl)
  on_rep_sent-Again _ qpn t e f lt = done (f, rw e refl)

  on_rtu_sent-Again :
      (c : CmState) (t : Tracker)
      → state_of t p ≡ c
      → Found k key p t
      → Ensures (λ _ u. Again k key p (λ c. on_rtu_sent c p) u) (on_rtu_sent c p t)
  unfolding on_rtu_sent
  on_rtu_sent-Again CmState.rep_rcvd t e f =
      Ensures.mono (establish-Found k key p t f) λ _ u (g, now). (g, rw now refl)
  on_rtu_sent-Again CmState.mra_rep_sent t e f =
      Ensures.mono (establish-Found k key p t f) λ _ u (g, now). (g, rw now refl)
  on_rtu_sent-Again _ t e f = done (f, rw e refl)

module _ (d : Dpdk) (parser : DynfieldOffsets) (m : Mbuf) where
  pub req_sent-Repeats : Repeats (req_sent d parser m)
  unfolding req_sent lift
  req_sent-Repeats t i = Ensures.bind_lift (mad_header parser m) t _ λ msg mad.
      let id = iba_get cm_req_local_comm_id m.bytes msg in
      Ensures.bind (get_flow-finds id null_key t i) λ p u (f, lt).
        Ensures.mono
          (on_req_sent-Again id null_key p _ (iba_get cm_req_local_qpn m.bytes msg) u refl f)
          λ _ v (g, again). rw (mad, get_flow-Found id null_key p v g) again

  pub rep_sent-Repeats : Repeats (rep_sent d parser m)
  unfolding rep_sent lift
  rep_sent-Repeats t i = Ensures.bind_lift (mad_header parser m) t _ λ msg mad.
      let id = iba_get cm_rep_local_comm_id m.bytes msg in
      let remote = iba_get cm_rep_remote_comm_id m.bytes msg in
      let qpn = iba_get cm_rep_local_qpn m.bytes msg in
      Ensures.bind_lift (from_dest d m remote) t _ λ key dest.
        Ensures.bind (get_flow-finds id key t i) λ p u (f, lt).
          Ensures.mono (on_rep_sent-Again id key p _ qpn u refl f lt)
            λ _ v (g, again). rw (mad, dest, get_flow-Found id key p v g) again

  pub rtu_sent-Repeats : Repeats (rtu_sent d parser m)
  unfolding rtu_sent lift
  rtu_sent-Repeats t i = Ensures.bind_lift (mad_header parser m) t _ λ msg mad.
      let id = iba_get cm_rtu_local_comm_id m.bytes msg in
      Ensures.bind (get_flow-finds id null_key t i) λ p u (f, lt).
        Ensures.mono (on_rtu_sent-Again id null_key p _ u refl f)
          λ _ v (g, again). rw (mad, get_flow-Found id null_key p v g) again

  pub dreq_sent-Repeats : Repeats (dreq_sent d parser m)
  unfolding dreq_sent lift
  dreq_sent-Repeats t i = Ensures.bind_lift (mad_header parser m) t _ λ msg mad.
      let id = iba_get cm_dreq_local_comm_id m.bytes msg in
      Ensures.bind (get_flow-finds id null_key t i) λ p u (f, lt).
        Ensures.mono (on_dreq_sent-Again id null_key p _ u refl f)
          λ _ v (g, again). rw (mad, get_flow-Found id null_key p v g) again
