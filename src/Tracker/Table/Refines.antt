-- ===== src/Tracker/Table/Refines.antt =====
-- Each packet is a step of the abstract table.
use libconntrack_cm.Base.{
  ℕ, ◌+◌, ◌≤◌, ◌≡◌, subst, Bool-cases, inl, inr, none, List, [], ◌∷◌, ltb, ◌==◌, arith,
}
use libconntrack_cm.Packet.{Dpdk, DynfieldOffsets, Mbuf, ok}
use libconntrack_cm.Store.{Tracker}
use libconntrack_cm.Tracker.Message.{get_attr_id}
use libconntrack_cm.Tracker.Dispatch.{
  Direction, from_host, from_net, Handler, handler_at, cm_max_attr_id, host_handlers, net_handlers,
  run_handler, process_packet, process, cm_req_attr_id, cm_rep_attr_id, cm_dreq_attr_id,
}
use libconntrack_cm.Tracker.Ensures
use libconntrack_cm.Tracker.Ensures.{Ensures, done, result}
use libconntrack_cm.Tracker.Invariant.{Inv}
use libconntrack_cm.Tracker.Table.{TableStep, IsAct, IsAct-refl}
use libconntrack_cm.Tracker.Table.Handlers.{
  req_sent-IsAct, rej_sent-IsAct, rep_sent-IsAct, rtu_sent-IsAct, dreq_sent-IsAct, drep_sent-IsAct,
  req_received-IsAct, rej_received-IsAct, rep_received-IsAct, rtu_received-IsAct,
  dreq_received-IsAct, drep_received-IsAct,
}

abbrev HandlerActs : ℕ → Handler → Type 0
HandlerActs a h = (m : Mbuf) (t : Tracker) → Inv t → Ensures (λ _ u. IsAct a t u) (h m t)

abbrev AllActs : List (ℕ × Handler) → Type 0
AllActs [] = Unit {0}
AllActs ((a, h) ∷ rest) = HandlerActs a h × AllActs rest

module _ (d : Dpdk) (parser : DynfieldOffsets) where
  host-AllActs : AllActs (host_handlers d parser)
  host-AllActs = (
    λ m t i. req_sent-IsAct d parser m t i cm_req_attr_id,
    (
      rej_sent-IsAct d parser,
      (
        λ m t i. rep_sent-IsAct d parser m t i cm_rep_attr_id,
        (
          rtu_sent-IsAct d parser,
          (λ m t i. dreq_sent-IsAct d parser m t i cm_dreq_attr_id, (drep_sent-IsAct d parser, tt)),
        ),
      ),
    ),
  )

  net-AllActs : AllActs (net_handlers d parser)
  net-AllActs = (
    λ m t i. req_received-IsAct d parser m t i cm_req_attr_id,
    (
      rej_received-IsAct d parser,
      (
        λ m t i. rep_received-IsAct d parser m t i cm_rep_attr_id,
        (
          rtu_received-IsAct d parser,
          (
            λ m t i. dreq_received-IsAct d parser m t i cm_dreq_attr_id,
            (drep_received-IsAct d parser, tt),
          ),
        ),
      ),
    ),
  )

  run_none-IsAct :
      (a : ℕ) (m : Mbuf) (t : Tracker)
      → Ensures (λ _ u. IsAct a t u) (run_handler d parser none m t)
  unfolding run_handler
  run_none-IsAct a m t = Ensures.bind_lift _ _ _ λ hdr _. done (IsAct-refl t)

  run_at-IsAct :
      (table : List (ℕ × Handler)) (a : ℕ) (m : Mbuf) (t : Tracker)
      → AllActs table
      → Inv t
      → Ensures (λ _ u. IsAct a t u) (run_handler d parser (handler_at table a) m t)
  unfolding handler_at
  run_at-IsAct [] a m t s i = run_none-IsAct a m t
  run_at-IsAct ((k, h) ∷ rest) a m t s i = elim (Bool-cases (k == a)) [
    | inl here ↦
        let same : k ≡ a = ground arith in
        rw here
          (unfold run_handler in subst (λ b. Ensures (λ _ u. IsAct b t u) (h m t)) same (s.0 m t i))
    | inr there ↦ rw there (run_at-IsAct rest a m t s.1 i)
  ]

  -- The result of a packet, with its attribute ID.
  abbrev pub Acts : Mbuf → Tracker → Tracker → Type 0
  Acts m t u = (a : ℕ) × (get_attr_id parser m ≡ ok a) × IsAct a t u

  process_packet-Acts :
      (table : List (ℕ × Handler)) (m : Mbuf) (t : Tracker)
      → AllActs table
      → Inv t
      → Ensures (λ _ u. Acts m t u) (process_packet d parser table m t)
  unfolding process_packet
  process_packet-Acts table m t s i = Ensures.bind_lift _ _ _ λ a is.
      elim (Bool-cases (ltb a cm_max_attr_id)) [
        | inl known ↦ rw known (Ensures.mono (run_at-IsAct table a m t s i) λ _ u act. (a, is, act))
        | inr unknown ↦ rw unknown (Ensures.mono (run_none-IsAct a m t) λ _ u act. (a, is, act))
      ]

  pub process-Acts :
      (m : Mbuf) (dir : Direction) (t : Tracker)
      → Inv t
      → Ensures (λ _ u. Acts m t u) (process d parser m dir t)
  unfolding process
  process-Acts m from_host t i = process_packet-Acts _ m t host-AllActs i
  process-Acts m from_net t i = process_packet-Acts _ m t net-AllActs i

  -- A packet that a tracker with the invariant processes without a failure has an attribute ID, is a step of the
  -- abstract table under that ID, and makes at most one flow.
  pub process-refines :
      (m : Mbuf) (dir : Direction) {t u : Tracker}
      → Inv t
      → process d parser m dir t ≡ ok (tt, u)
      → (a : ℕ) × (get_attr_id parser m ≡ ok a)
        × TableStep a t.qpn_map u.qpn_map
        × (u.next ≤ t.next + 1)
  process-refines m dir {t} i e =
      let (a, is, act) = result (process-Acts m dir t i) e in (a, is, act.table, act.bounded)
