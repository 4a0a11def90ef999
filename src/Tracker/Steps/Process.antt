-- ===== src/Tracker/Steps/Process.antt =====
-- `process` is a step, whatever the packet, and so a history of packets keeps the invariant.
use libconntrack_cm.Base.{ℕ, ◌≡◌}
use libconntrack_cm.Packet.{Dpdk, DynfieldOffsets, Mbuf}
use libconntrack_cm.Store.{Tracker, M}
use libconntrack_cm.Tracker.Dispatch.{Direction, from_host, from_net, process}
use libconntrack_cm.Tracker.Ensures.{Ensures, done, failed}
use libconntrack_cm.Tracker.Edges.{IsStep, IsStep-refl}
use libconntrack_cm.Tracker.Invariant.{Inv}
use libconntrack_cm.Tracker.Route.{AllHandlers, handlers, process-cases}
use libconntrack_cm.Tracker.Steps.Host.{
  req_sent-IsStep, rej_sent-IsStep, rep_sent-IsStep, rtu_sent-IsStep, dreq_sent-IsStep,
  drep_sent-IsStep,
}
use libconntrack_cm.Tracker.Steps.Net.{
  req_received-IsStep, rej_received-IsStep, rep_received-IsStep, rtu_received-IsStep,
  dreq_received-IsStep, drep_received-IsStep,
}

abbrev Steps : M (Unit {0}) → Type 0
Steps run = (t : Tracker) → Inv t → Ensures (λ _ u. IsStep t u) (run t)

module _ (d : Dpdk) (parser : DynfieldOffsets) (m : Mbuf) where
  handlers-Steps :
      (dir : Direction) (a : ℕ) → AllHandlers (λ k h. a ≡ k → Steps (h m)) (handlers d parser dir)
  handlers-Steps from_host a = (
    λ _. req_sent-IsStep d parser m,
    (
      λ _. rej_sent-IsStep d parser m,
      (
        λ _. rep_sent-IsStep d parser m,
        (
          λ _. rtu_sent-IsStep d parser m,
          (λ _. dreq_sent-IsStep d parser m, (λ _. drep_sent-IsStep d parser m, tt)),
        ),
      ),
    ),
  )
  handlers-Steps from_net a = (
    λ _. req_received-IsStep d parser m,
    (
      λ _. rej_received-IsStep d parser m,
      (
        λ _. rep_received-IsStep d parser m,
        (
          λ _. rtu_received-IsStep d parser m,
          (λ _. dreq_received-IsStep d parser m, (λ _. drep_received-IsStep d parser m, tt)),
        ),
      ),
    ),
  )

  pub process-Steps : (dir : Direction) → Steps (process d parser m dir)
  process-Steps dir =
      process-cases d parser m Steps (λ e t i. failed) (λ t i. done (IsStep-refl i)) dir
        λ a _. handlers-Steps dir a
