-- ===== src/Tracker/Repeat/Process.antt =====
-- A packet that is processed twice in a row.
use libconntrack_cm.Base.{ℕ, ◌≡◌, ◌≢◌, refl, ap, ◌∙◌}
use libconntrack_cm.Packet.{Dpdk, DynfieldOffsets, Mbuf, ok}
use libconntrack_cm.Store.{Tracker}
use libconntrack_cm.Tracker.Message.{get_attr_id}
use libconntrack_cm.Tracker.Dispatch.{Direction, from_host, from_net, process}
use libconntrack_cm.Tracker.Ensures.{done, failed, result}
use libconntrack_cm.Tracker.Invariant.{Inv}
use libconntrack_cm.Tracker.Route.{handlers, AllHandlers, process-cases}
use libconntrack_cm.Tracker.Repeat.{Repeats}
use libconntrack_cm.Tracker.Repeat.Host.{
  req_sent-Repeats, rep_sent-Repeats, rtu_sent-Repeats, dreq_sent-Repeats,
}
use libconntrack_cm.Tracker.Repeat.Net.{
  req_received-Repeats, rep_received-Repeats, rtu_received-Repeats, dreq_received-Repeats,
}

module _ (d : Dpdk) (parser : DynfieldOffsets) (m : Mbuf) (not_rej : get_attr_id parser m ≢ ok 0x12)
    (not_drep : get_attr_id parser m ≢ ok 0x16) where
  handlers-Repeats :
      (dir : Direction) (a : ℕ)
      → get_attr_id parser m ≡ ok a
      → AllHandlers (λ k h. a ≡ k → Repeats (h m)) (handlers d parser dir)
  handlers-Repeats from_host a e = (
    λ _. req_sent-Repeats d parser m,
    (
      λ h. absurd (not_rej (e ∙ ap ok h)),
      (
        λ _. rep_sent-Repeats d parser m,
        (
          λ _. rtu_sent-Repeats d parser m,
          (λ _. dreq_sent-Repeats d parser m, (λ h. absurd (not_drep (e ∙ ap ok h)), tt)),
        ),
      ),
    ),
  )
  handlers-Repeats from_net a e = (
    λ _. req_received-Repeats d parser m,
    (
      λ h. absurd (not_rej (e ∙ ap ok h)),
      (
        λ _. rep_received-Repeats d parser m,
        (
          λ _. rtu_received-Repeats d parser m,
          (λ _. dreq_received-Repeats d parser m, (λ h. absurd (not_drep (e ∙ ap ok h)), tt)),
        ),
      ),
    ),
  )

  process-Repeats : (dir : Direction) → Repeats (process d parser m dir)
  process-Repeats dir =
      process-cases d parser m Repeats (λ e t i. failed) (λ t i. done refl) dir
        (handlers-Repeats dir)

-- The tracker satisfies its invariant, and the packet is neither a REJ nor a DREP. When it is processed without a
-- failure, the same packet can be processed again without a failure, in the same direction, and then changes nothing
-- at all: a message that is sent a second time is harmless.
pub process-again :
    (d : Dpdk) (parser : DynfieldOffsets) (m : Mbuf) (dir : Direction) (t u : Tracker)
    → get_attr_id parser m ≢ ok 0x12
    → get_attr_id parser m ≢ ok 0x16
    → Inv t
    → process d parser m dir t ≡ ok (tt, u)
    → process d parser m dir u ≡ ok (tt, u)
process-again d parser m dir t u not_rej not_drep i run =
    result (process-Repeats d parser m not_rej not_drep dir t i) run
