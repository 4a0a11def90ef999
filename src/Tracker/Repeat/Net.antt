-- ===== src/Tracker/Repeat/Net.antt =====
-- The handlers for a REQ, a REP, an RTU and a DREQ from the network repeat.
use libconntrack_cm.Base.{ℕ, ◌<◌, ◌≡◌, refl, ap, ◌∙◌}
use libconntrack_cm.Packet.{Dpdk, DynfieldOffsets, Mbuf, ok}
use libconntrack_cm.Iba.{iba_get}
use libconntrack_cm.Cm.Req.{cm_req_local_comm_id, cm_req_local_qpn}
use libconntrack_cm.Cm.Rep.{cm_rep_local_comm_id, cm_rep_remote_comm_id, cm_rep_local_qpn}
use libconntrack_cm.Cm.Rtu.{cm_rtu_remote_comm_id}
use libconntrack_cm.Cm.Dreq.{cm_dreq_remote_comm_id}
use libconntrack_cm.Store.{CmState, CmFlowKey, Ptr, Tracker, null_key, lift, check}
use libconntrack_cm.Tracker.Message.{mad_header, from_src}
use libconntrack_cm.Tracker.Net.{
  receive_req, on_req_received, receive_rep, on_rep_received, on_rtu_received, receive_dreq,
  on_dreq_received, req_received, rep_received, rtu_received, dreq_received,
}
use libconntrack_cm.Tracker.Ensures
use libconntrack_cm.Tracker.Ensures.{Ensures, done}
use libconntrack_cm.Tracker.Edges.{state_of}
use libconntrack_cm.Tracker.Invariant.Write.{put}
use libconntrack_cm.Tracker.HandshakeFlow.{==-refl}
use libconntrack_cm.Tracker.Lookup.{add_new_flow-IsLookup}
use libconntrack_cm.Tracker.Repeat.{
  establish-Found, Found, Found-Lookup, Found-put, get_flow-Found, get_flow-finds, Again, Repeats,
  put-again,
}

module _ (k : ℕ) (key : CmFlowKey) (p : Ptr) where
  req-Again :
      (qpn : ℕ) (t : Tracker)
      → Found k key p t
      → Again k key p
          (λ c. on_req_received c p qpn)
          (put t p (record (t.cells p) { state = CmState.req_rcvd; remote_qpn = qpn }))
  unfolding on_req_received check
  req-Again qpn t f =
      let s = record (t.cells p) { state = CmState.req_rcvd; remote_qpn = qpn } in
      (
        Found-put k key p p s f,
        rw (==-refl p, on_req_received)
            (rw (==-refl p) (
              rw (==-refl qpn)
                (rw (==-refl p, receive_req) (ap (λ u. ok (tt, u)) (put-again t p s))))),
      )

  on_req_received-Again :
      (c : CmState) (qpn : ℕ) (t : Tracker)
      → state_of t p ≡ c
      → Found k key p t
      → Ensures (λ _ u. Again k key p (λ c. on_req_received c p qpn) u) (on_req_received c p qpn t)
  unfolding on_req_received
  on_req_received-Again CmState.idle qpn t e f = done (req-Again qpn t f)
  on_req_received-Again CmState.req_rcvd qpn t e f =
      Ensures.bind_check _ _ _ λ same. done (req-Again qpn t f)
  on_req_received-Again _ qpn t e f = done (f, rw e refl)

  dreq-Again :
      (t : Tracker)
      → Found k key p t
      → Again k key p
          (λ c. on_dreq_received c p)
          (put t p (record (t.cells p) { state = CmState.dreq_rcvd }))
  unfolding on_dreq_received
  dreq-Again t f =
      let s = record (t.cells p) { state = CmState.dreq_rcvd } in
      (
        Found-put k key p p s f,
        rw (==-refl p, on_dreq_received)
            (rw (==-refl p, receive_dreq) (ap (λ u. ok (tt, u)) (put-again t p s))),
      )

  on_dreq_received-Again :
      (c : CmState) (t : Tracker)
      → state_of t p ≡ c
      → Found k key p t
      → Ensures (λ _ u. Again k key p (λ c. on_dreq_received c p) u) (on_dreq_received c p t)
  unfolding on_dreq_received
  on_dreq_received-Again CmState.rep_sent t e f = done (dreq-Again t f)
  on_dreq_received-Again CmState.dreq_sent t e f = done (dreq-Again t f)
  on_dreq_received-Again CmState.established t e f = done (dreq-Again t f)
  on_dreq_received-Again CmState.mra_rep_rcvd t e f = done (dreq-Again t f)
  on_dreq_received-Again CmState.timewait t e f = done (dreq-Again t f)
  on_dreq_received-Again CmState.dreq_rcvd t e f = done (dreq-Again t f)
  on_dreq_received-Again _ t e f = done (f, rw e refl)

  -- The key that a REP binds is not the one that the flow was found by.
  receive_rep-Found :
      (sender : CmFlowKey) (qpn : ℕ) (t : Tracker)
      → Found k key p t
      → p < t.next
      → Ensures
          (λ _ u. Found k key p u × (state_of u p ≡ CmState.rep_rcvd))
          (receive_rep p k sender qpn t)
  unfolding receive_rep
  receive_rep-Found sender qpn t f lt =
      let s = record (t.cells p) { state = CmState.rep_rcvd; remote_qpn = qpn } in
      Ensures.bind (add_new_flow-IsLookup k sender (put t p s)) λ q u l. done (
        Found-Lookup k key p q (Found-put k key p p s f) l,
        l.states p lt ∙ rw (==-refl p, state_of) refl,
      )

  on_rep_received-Again :
      (c : CmState) (sender : CmFlowKey) (qpn : ℕ) (t : Tracker)
      → state_of t p ≡ c
      → Found k key p t
      → p < t.next
      → Ensures
          (λ _ u. Again k key p (λ c. on_rep_received c p k sender qpn) u)
          (on_rep_received c p k sender qpn t)
  unfolding on_rep_received
  on_rep_received-Again CmState.req_sent sender qpn t e f lt =
      Ensures.mono (receive_rep-Found sender qpn t f lt) λ _ u (g, now). (g, rw now refl)
  on_rep_received-Again CmState.mra_req_rcvd sender qpn t e f lt =
      Ensures.mono (receive_rep-Found sender qpn t f lt) λ _ u (g, now). (g, rw now refl)
  on_rep_received-Again _ sender qpn t e f lt = done (f, rw e refl)

  on_rtu_received-Again :
      (c : CmState) (t : Tracker)
      → state_of t p ≡ c
      → Found k key p t
      → Ensures (λ _ u. Again k key p (λ c. on_rtu_received c p) u) (on_rtu_received c p t)
  unfolding on_rtu_received
  on_rtu_received-Again CmState.rep_sent t e f =
      Ensures.mono (establish-Found k key p t f) λ _ u (g, now). (g, rw now refl)
  on_rtu_received-Again CmState.mra_rep_rcvd t e f =
      Ensures.mono (establish-Found k key p t f) λ _ u (g, now). (g, rw now refl)
  on_rtu_received-Again _ t e f = done (f, rw e refl)

module _ (d : Dpdk) (parser : DynfieldOffsets) (m : Mbuf) where
  pub req_received-Repeats : Repeats (req_received d parser m)
  unfolding req_received lift
  req_received-Repeats t i = Ensures.bind_lift (mad_header parser m) t _ λ msg mad.
      let remote = iba_get cm_req_local_comm_id m.bytes msg in
      let qpn = iba_get cm_req_local_qpn m.bytes msg in
      Ensures.bind_lift (from_src d m remote) t _ λ key source.
        Ensures.bind (get_flow-finds 0 key t i) λ p u (f, lt).
          Ensures.mono (on_req_received-Again 0 key p _ qpn u refl f)
            λ _ v (g, again). rw (mad, source, get_flow-Found 0 key p v g) again

  pub rep_received-Repeats : Repeats (rep_received d parser m)
  unfolding rep_received lift
  rep_received-Repeats t i = Ensures.bind_lift (mad_header parser m) t _ λ msg mad.
      let id = iba_get cm_rep_remote_comm_id m.bytes msg in
      let remote = iba_get cm_rep_local_comm_id m.bytes msg in
      let qpn = iba_get cm_rep_local_qpn m.bytes msg in
      Ensures.bind_lift (from_src d m remote) t _ λ sender source.
        Ensures.bind (get_flow-finds id null_key t i) λ p u (f, lt).
          Ensures.mono (on_rep_received-Again id null_key p _ sender qpn u refl f lt)
            λ _ v (g, again). rw (mad, source, get_flow-Found id null_key p v g) again

  pub rtu_received-Repeats : Repeats (rtu_received d parser m)
  unfolding rtu_received lift
  rtu_received-Repeats t i = Ensures.bind_lift (mad_header parser m) t _ λ msg mad.
      let id = iba_get cm_rtu_remote_comm_id m.bytes msg in
      Ensures.bind (get_flow-finds id null_key t i) λ p u (f, lt).
        Ensures.mono (on_rtu_received-Again id null_key p _ u refl f)
          λ _ v (g, again). rw (mad, get_flow-Found id null_key p v g) again

  pub dreq_received-Repeats : Repeats (dreq_received d parser m)
  unfolding dreq_received lift
  dreq_received-Repeats t i = Ensures.bind_lift (mad_header parser m) t _ λ msg mad.
      let id = iba_get cm_dreq_remote_comm_id m.bytes msg in
      Ensures.bind (get_flow-finds id null_key t i) λ p u (f, lt).
        Ensures.mono (on_dreq_received-Again id null_key p _ u refl f)
          λ _ v (g, again). rw (mad, get_flow-Found id null_key p v g) again
