-- ===== src/Tracker/Isolate/Process.antt =====
-- A packet touches one flow at most, and the queries for the others are answered as before.
use libconntrack_cm.Base.{ℕ, ◌<◌, ◌≡◌, ◌≢◌, ap, sym, ◌∙◌}
use libconntrack_cm.Packet.{Dpdk, DynfieldOffsets, Mbuf, ok}
use libconntrack_cm.Store.{FlowState, Ptr, Tracker, get_flow_key}
use libconntrack_cm.Tracker.{get_source_qpn}
use libconntrack_cm.Tracker.Dispatch.{Direction, from_host, from_net, process}
use libconntrack_cm.Tracker.Ensures.{done, failed, result}
use libconntrack_cm.Tracker.Invariant.{Inv, IsFlagged}
use libconntrack_cm.Tracker.Safety.{process-Inv}
use libconntrack_cm.Tracker.Route.{handlers, AllHandlers, process-cases}
use libconntrack_cm.Tracker.Isolate.{Isolates, IsOnly-refl}
use libconntrack_cm.Tracker.Isolate.Host.{
  req_sent-Isolates, rej_sent-Isolates, rep_sent-Isolates, rtu_sent-Isolates, dreq_sent-Isolates,
  drep_sent-Isolates,
}
use libconntrack_cm.Tracker.Isolate.Net.{
  req_received-Isolates, rej_received-Isolates, rep_received-Isolates, rtu_received-Isolates,
  dreq_received-Isolates, drep_received-Isolates,
}

module _ (d : Dpdk) (parser : DynfieldOffsets) (m : Mbuf) where
  handlers-Isolates :
      (dir : Direction) (a : ℕ)
      → AllHandlers (λ k h. a ≡ k → Isolates (h m)) (handlers d parser dir)
  handlers-Isolates from_host a = (
    λ _. req_sent-Isolates d parser m,
    (
      λ _. rej_sent-Isolates d parser m,
      (
        λ _. rep_sent-Isolates d parser m,
        (
          λ _. rtu_sent-Isolates d parser m,
          (λ _. dreq_sent-Isolates d parser m, (λ _. drep_sent-Isolates d parser m, tt)),
        ),
      ),
    ),
  )
  handlers-Isolates from_net a = (
    λ _. req_received-Isolates d parser m,
    (
      λ _. rej_received-Isolates d parser m,
      (
        λ _. rep_received-Isolates d parser m,
        (
          λ _. rtu_received-Isolates d parser m,
          (λ _. dreq_received-Isolates d parser m, (λ _. drep_received-Isolates d parser m, tt)),
        ),
      ),
    ),
  )

  process-Isolates : (dir : Direction) → Isolates (process d parser m dir)
  process-Isolates dir =
      process-cases d parser m Isolates (λ e t i. failed) (λ t i. done (0, IsOnly-refl 0 t)) dir
        (λ a e. handlers-Isolates dir a)

get_source_qpn-flagged :
    {t : Tracker} (i : Inv t) (q : Ptr) (s : FlowState)
    → t.cells q ≡ s
    → IsFlagged t q
    → get_source_qpn t (get_flow_key s) ≡ s.local_qpn
unfolding get_source_qpn
get_source_qpn-flagged i q s e f =
    rw (ap (λ x. get_flow_key x) (sym e), (i.flagged_ok q f).entry, get_source_qpn)
      (ap (λ x. x.local_qpn) e)

-- The tracker satisfies its invariant, and a packet of any kind, in any direction, is processed without a failure.
-- Then there is one flow such that every other flow that was there is as it was, whatever message the packet
-- carries, and such that, if the other flow is marked as being in the QPN table, the query for its address and remote
-- QP number still gives its QP number.
pub process-isolates :
    (d : Dpdk) (parser : DynfieldOffsets) (m : Mbuf) (dir : Direction) (t u : Tracker)
    → Inv t
    → process d parser m dir t ≡ ok (tt, u)
    → (p : Ptr) × ((q : Ptr)
        → q < t.next
        → q ≢ p
        → (u.cells q ≡ t.cells q)
          × (IsFlagged t q → get_source_qpn u (get_flow_key (t.cells q)) ≡ (t.cells q).local_qpn))
process-isolates d parser m dir t u i run =
    let (p, only) = result (process-Isolates d parser m dir t i) run in
    (
      p,
      λ q lt ne.
          let same = only.others q lt ne in
          (
            same,
            λ marked.
                get_source_qpn-flagged (process-Inv d parser m dir i run) q (t.cells q) same
                  (ap (λ x. x.in_qpn_map) same ∙ marked),
          ),
    )
