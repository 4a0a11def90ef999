-- ===== src/Tracker/Safety.antt =====
-- What the tracker guarantees after any history of packets: its maps agree, the protocol's edges are
-- respected, and the query table holds exactly the connections that are established.
use libconntrack_cm.Base.{
  ◌≤◌, ◌<◌, ◌≡◌, ◌≢◌, refl, Bool, true, false, arith, List, [], ◌∷◌, inl, inr, Bool-cases,
  Option-cases, ltb,
}
use libconntrack_cm.Packet.{Dpdk, DynfieldOffsets, Mbuf, ok}
use libconntrack_cm.Store.{CmState, FlowKey, Ptr, Tracker, empty_tracker, get_flow_key}
use libconntrack_cm.Tracker.{get_source_qpn}
use libconntrack_cm.Tracker.Dispatch.{Direction, process, process_all}
use libconntrack_cm.Tracker.Ensures
use libconntrack_cm.Tracker.Ensures.{Ensures, done, failed, result}
use libconntrack_cm.Tracker.Edges.{edge, state_of, IsStep}
use libconntrack_cm.Tracker.Invariant.{Inv, IsListed, IsFlagged, empty_tracker-Inv}
use libconntrack_cm.Tracker.Steps.Process.{process-Steps}

-- The states that the tracker uses: no message is handled that leads to the others.
abbrev pub is_used : CmState → Bool
is_used CmState.idle = true
is_used CmState.req_sent = true
is_used CmState.req_rcvd = true
is_used CmState.rep_sent = true
is_used CmState.rep_rcvd = true
is_used CmState.established = true
is_used CmState.dreq_sent = true
is_used CmState.dreq_rcvd = true
is_used _ = false

is_used-edge : (a b : CmState) → is_used a ≡ true → edge a b ≡ true → is_used b ≡ true
is_used-edge CmState.idle b h e = ground arith
is_used-edge a b h e = ground arith

abbrev pub AllUsed : Tracker → Type 0
AllUsed t = (p : Ptr) → p < t.next → is_used (state_of t p) ≡ true

module _ (d : Dpdk) (parser : DynfieldOffsets) where
  -- A packet of any kind, in any direction, that is processed without a failure keeps the invariant.
  pub process-Inv :
      (m : Mbuf) (dir : Direction) {t u : Tracker}
      → Inv t
      → process d parser m dir t ≡ ok (tt, u)
      → Inv u
  process-Inv m dir {t} i e = (result (process-Steps d parser m dir t i) e).inv

  -- When a packet of any kind, in any direction, is processed without a failure by a tracker that satisfies
  -- the invariant, no flow is dropped from the store, each flow moves along an edge of the protocol, and the
  -- flows that are made are in a state that an edge from `idle` leads to.
  pub process-edge :
      (m : Mbuf) (dir : Direction) {t u : Tracker}
      → Inv t
      → process d parser m dir t ≡ ok (tt, u)
      → (t.next ≤ u.next)
        × ((p : Ptr) → p < t.next → edge (state_of t p) (state_of u p) ≡ true)
        × ((p : Ptr) → t.next ≤ p → p < u.next → edge CmState.idle (state_of u p) ≡ true)
  process-edge m dir {t} i e =
      let s = result (process-Steps d parser m dir t i) e in (s.grows, s.old, s.new)

  process-AllUsed :
      (m : Mbuf) (dir : Direction) {t u : Tracker} → AllUsed t → IsStep t u → AllUsed u
  process-AllUsed m dir {t} {u} a s p h = elim (Bool-cases (ltb p t.next)) [
    | inl lt ↦ let lt' : p < t.next = ground arith in is_used-edge _ _ (a p lt') (s.old p lt')
    | inr ge ↦ is_used-edge CmState.idle _ refl (s.new p (ground arith) h)
  ]

  process_all-Ensures :
      (ms : List (Mbuf × Direction)) (t : Tracker)
      → Inv t
      → AllUsed t
      → Ensures (λ _ u. Inv u × AllUsed u) (process_all d parser ms t)
  unfolding process_all
  process_all-Ensures [] t i a = done (i, a)
  process_all-Ensures ((m, dir) ∷ ms) t i a =
      Ensures.bind (process-Steps d parser m dir t i)
        λ _ u s. process_all-Ensures ms u s.inv (process-AllUsed m dir a s)

  module _ (ms : List (Mbuf × Direction)) {u : Tracker}
      (run : process_all d parser ms empty_tracker ≡ ok (tt, u)) where
    reached : Inv u × AllUsed u
    reached =
        result
          (process_all-Ensures ms empty_tracker empty_tracker-Inv (λ p h. absurd (omega arith))) run

    -- After any history the invariant holds.
    pub process_all-Inv : Inv u
    process_all-Inv = reached.0

    -- After any history of packets that the new tracker processes without a failure, no flow is in one of
    -- the MRA states or in `timewait`.
    pub process_all-AllUsed : AllUsed u
    process_all-AllUsed = reached.1

    -- After any history of packets that the new tracker processes without a failure, a query that answers
    -- with a QP number other than 0 answers for a connection that is marked as being in the QPN table, is
    -- settled (established, or closing), is found by its local ID, has the queried address and QP number,
    -- and has the answer for its own.
    pub get_source_qpn_sound :
        (k : FlowKey)
        → get_source_qpn u k ≢ 0
        → (p : Ptr) × IsFlagged u p
          × IsListed u p
          × (get_flow_key (u.cells p) ≡ k)
          × ((u.cells p).local_qpn ≡ get_source_qpn u k)
    unfolding get_source_qpn
    get_source_qpn_sound k h = elim (Option-cases (u.qpn_map k)) [
      | inl e ↦ absurd (h (rw (e, get_source_qpn)))
      | inr (v, e) ↦
          let (p, f, key, qpn) = process_all-Inv.listed k v e in
          (p, f, process_all-Inv.flagged_ok p f, key, rw (e, get_source_qpn) qpn)
    ]

    -- After any history of packets that the new tracker processes without a failure, the query finds every
    -- connection that is marked, its QP number is not 0, and no two marked connections share an address
    -- and QP number.
    pub get_source_qpn_complete :
        (p : Ptr)
        → IsFlagged u p
        → (get_source_qpn u (get_flow_key (u.cells p)) ≡ (u.cells p).local_qpn)
          × ((u.cells p).local_qpn ≢ 0)
          × ((q : Ptr)
              → IsFlagged u q
              → get_flow_key (u.cells q) ≡ get_flow_key (u.cells p)
              → q ≡ p)
    unfolding get_source_qpn
    get_source_qpn_complete p f =
        let is = process_all-Inv.flagged_ok p f in
        (rw (is.entry, get_source_qpn), is.local_qpn, λ q g e. process_all-Inv.distinct q p g f e)
