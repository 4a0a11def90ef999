-- ===== src/Tracker/Route.antt =====
-- How a packet reaches its handler: what holds of every handler, and of a packet without one, holds of
-- `process`.
use libconntrack_cm.Base.{
  ℕ, ◌≡◌, refl, Bool-cases, inl, inr, none, List, [], ◌∷◌, ltb, ◌==◌, arith, if◌then◌else◌,
}
use libconntrack_cm.Packet.{Fault, Dpdk, DynfieldOffsets, Mbuf, Result, ok, stop}
use libconntrack_cm.Store.{M, and_then, lift}
use libconntrack_cm.Tracker.Message.{get_attr_id, mad_header}
use libconntrack_cm.Tracker.Dispatch.{
  Direction, from_host, from_net, Handler, handler_at, cm_max_attr_id, host_handlers, net_handlers,
  run_handler, process_packet, process,
}

abbrev pub AllHandlers : (ℕ → Handler → Type 0) → List (ℕ × Handler) → Type 0
AllHandlers P [] = Unit {0}
AllHandlers P ((k, h) ∷ rest) = P k h × AllHandlers P rest

-- The handlers of a direction.
abbrev pub handlers : Dpdk → DynfieldOffsets → Direction → List (ℕ × Handler)
handlers d parser from_host = host_handlers d parser
handlers d parser from_net = net_handlers d parser

module _ (d : Dpdk) (parser : DynfieldOffsets) (m : Mbuf) (P : M (Unit {0}) → Type 0)
    (faulty : (e : Fault) → P (λ t. stop e)) (ignored : P (λ t. ok (tt, t))) where
  run_none-cases : P (run_handler d parser none m)
  unfolding run_handler
  run_none-cases =
      elim (mad_header parser m) as (λ r. P (λ t. and_then (lift r t) (λ _ u. ok (tt, u)))) [
        | ok hdr ↦ (unfold lift in ignored)
        | stop e ↦ (unfold lift in faulty e)
      ]

  run_at-cases :
      (table : List (ℕ × Handler)) (a : ℕ)
      → AllHandlers (λ k h. a ≡ k → P (h m)) table
      → P (run_handler d parser (handler_at table a) m)
  unfolding handler_at
  run_at-cases [] a s = run_none-cases
  run_at-cases ((k, h) ∷ rest) a s = elim (Bool-cases (k == a)) [
    | inl here ↦ rw here (unfold run_handler in s.0 (ground arith))
    | inr there ↦ rw there (run_at-cases rest a s.1)
  ]

  run_attr-cases :
      (table : List (ℕ × Handler)) (r : Result ℕ)
      → ((a : ℕ) → r ≡ ok a → AllHandlers (λ k h. a ≡ k → P (h m)) table)
      → P λ t.
        and_then
          (lift r t)
          λ a. run_handler d parser (if ltb a cm_max_attr_id then handler_at table a else none) m
  unfolding lift
  run_attr-cases table (stop e) s = faulty e
  run_attr-cases table (ok a) s = elim (Bool-cases (ltb a cm_max_attr_id)) [
    | inl known ↦ rw known (run_at-cases table a (s a refl))
    | inr unknown ↦ rw unknown run_none-cases
  ]

  process_packet-cases :
      (table : List (ℕ × Handler))
      → ((a : ℕ) → get_attr_id parser m ≡ ok a → AllHandlers (λ k h. a ≡ k → P (h m)) table)
      → P (process_packet d parser table m)
  unfolding process_packet
  process_packet-cases table s = run_attr-cases table (get_attr_id parser m) s

  pub process-cases :
      (dir : Direction)
      → ((a : ℕ)
          → get_attr_id parser m ≡ ok a
          → AllHandlers (λ k h. a ≡ k → P (h m)) (handlers d parser dir))
      → P (process d parser m dir)
  unfolding process
  process-cases from_host s = process_packet-cases (host_handlers d parser) s
  process-cases from_net s = process_packet-cases (net_handlers d parser) s
