-- ===== src/Tracker/Access/Process.antt =====
-- `process` fails by an assertion alone, on a packet whose MAD pointer is set.
use libconntrack_cm.Base.{ℕ, Bool-cases, inl, inr, none, List, [], ◌∷◌, ltb, ◌==◌}
use libconntrack_cm.Packet.{Dpdk, DynfieldOffsets, Mbuf, ok, stop, assertion, Result}
use libconntrack_cm.Packet
use libconntrack_cm.Store.{Tracker}
use libconntrack_cm.Tracker.Message.{get_attr_id, mad_header}
use libconntrack_cm.Tracker.Dispatch.{
  Direction, from_host, from_net, Handler, handler_at, cm_max_attr_id, host_handlers, net_handlers,
  run_handler, process_packet, process,
}
use libconntrack_cm.Tracker.Access
use libconntrack_cm.Tracker.Access.{NoNull, returns, asserts}
use libconntrack_cm.Tracker.Access.Handlers.{
  req_sent-NoNull, rej_sent-NoNull, rep_sent-NoNull, rtu_sent-NoNull, dreq_sent-NoNull,
  drep_sent-NoNull, req_received-NoNull, rej_received-NoNull, rep_received-NoNull,
  rtu_received-NoNull, dreq_received-NoNull, drep_received-NoNull,
}

module _ (d : Dpdk) (parser : DynfieldOffsets) (m : Mbuf) (set : NoNull (mad_header parser m)) where
  abbrev AllSafe : List (ℕ × Handler) → Type 0
  AllSafe [] = Unit {0}
  AllSafe ((_, h) ∷ rest) = ((t : Tracker) → NoNull (h m t)) × AllSafe rest

  host-AllSafe : AllSafe (host_handlers d parser)
  host-AllSafe = (
    req_sent-NoNull d parser m set,
    (
      rej_sent-NoNull d parser m set,
      (
        rep_sent-NoNull d parser m set,
        (
          rtu_sent-NoNull d parser m set,
          (dreq_sent-NoNull d parser m set, (drep_sent-NoNull d parser m set, tt)),
        ),
      ),
    ),
  )

  net-AllSafe : AllSafe (net_handlers d parser)
  net-AllSafe = (
    req_received-NoNull d parser m set,
    (
      rej_received-NoNull d parser m set,
      (
        rep_received-NoNull d parser m set,
        (
          rtu_received-NoNull d parser m set,
          (dreq_received-NoNull d parser m set, (drep_received-NoNull d parser m set, tt)),
        ),
      ),
    ),
  )

  run_none-NoNull : (t : Tracker) → NoNull (run_handler d parser none m t)
  unfolding run_handler
  run_none-NoNull t = Access.bind_lift _ _ _ set λ hdr _. returns

  run_at-NoNull :
      (table : List (ℕ × Handler)) (a : ℕ) (t : Tracker)
      → AllSafe table
      → NoNull (run_handler d parser (handler_at table a) m t)
  unfolding handler_at
  run_at-NoNull [] a t s = run_none-NoNull t
  run_at-NoNull ((k, h) ∷ rest) a t s = elim (Bool-cases (k == a)) [
    | inl here ↦ rw here (unfold run_handler in s.0 t)
    | inr there ↦ rw there (run_at-NoNull rest a t s.1)
  ]

  get_attr_id-NoNull :
      {r : Result ℕ} (k : ℕ → ℕ) → NoNull r → NoNull (Packet.◌>>=◌ r λ msg. ok (k msg))
  get_attr_id-NoNull k returns = returns
  get_attr_id-NoNull k asserts = asserts

  process_packet-NoNull :
      (table : List (ℕ × Handler)) (t : Tracker)
      → AllSafe table
      → NoNull (process_packet d parser table m t)
  unfolding process_packet get_attr_id
  process_packet-NoNull table t s = Access.bind_lift _ _ _ (get_attr_id-NoNull _ set) λ a is.
      elim (Bool-cases (ltb a cm_max_attr_id)) [
        | inl known ↦ rw known (run_at-NoNull table a t s)
        | inr unknown ↦ rw unknown (run_none-NoNull t)
      ]

  pub process-NoNull : (dir : Direction) (t : Tracker) → NoNull (process d parser m dir t)
  unfolding process
  process-NoNull from_host t = process_packet-NoNull _ t host-AllSafe
  process-NoNull from_net t = process_packet-NoNull _ t net-AllSafe
