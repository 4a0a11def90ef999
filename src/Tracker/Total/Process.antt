-- ===== src/Tracker/Total/Process.antt =====
-- The messages that are processed to their end.
use libconntrack_cm.Base.{
  ℕ, ◌≡◌, refl, sym, Bool, true, false, arith, Bool-cases, inl, inr, ◌==◌, List, [], ◌∷◌, ltb, some,
}
use libconntrack_cm.Packet.{is_ok, Dpdk, DynfieldOffsets, Mbuf, ok, mbuf_ip, ctcm_mbuf_get_mad}
use libconntrack_cm.Store.{Tracker, lift}
use libconntrack_cm.Tracker.Message.{get_attr_id, mad_header}
use libconntrack_cm.Tracker.Dispatch.{
  Direction, from_host, from_net, Handler, handler_at, run_handler, process_packet, process,
  cm_max_attr_id,
}
use libconntrack_cm.Tracker.HandshakeFlow.{mad_header-Carries}
use libconntrack_cm.Tracker.Invariant.{Inv}
use libconntrack_cm.Tracker.Route.{handlers}
use libconntrack_cm.Tracker.Total.Conditions.{conditions, condition_at, accepts}
use libconntrack_cm.Tracker.Total.Messages.{
  req_sent-is_ok, rej_sent-is_ok, rep_sent-is_ok, rtu_sent-is_ok, dreq_sent-is_ok, drep_sent-is_ok,
  req_received-is_ok, rej_received-is_ok, rep_received-is_ok, rtu_received-is_ok,
  dreq_received-is_ok, drep_received-is_ok,
}

-- The conditions of the handlers of a table, one by one.
abbrev Decide : Mbuf → Tracker → List (ℕ × Handler) → List (ℕ × Bool) → Type 0
Decide m t [] [] = Unit {0}
Decide m t ((k, h) ∷ hs) ((j, b) ∷ bs) = (j ≡ k) × (is_ok (h m t) ≡ b) × Decide m t hs bs
Decide m t _ _ = true ≡ false

module _ (d : Dpdk) (parser : DynfieldOffsets) (m : Mbuf) (a : ℕ) (t : Tracker)
    (mad : mad_header parser m ≡ ok a) where
  run_handler-is_ok :
      (hs : List (ℕ × Handler)) (bs : List (ℕ × Bool)) (attr : ℕ)
      → Decide m t hs bs
      → is_ok (run_handler d parser (handler_at hs attr) m t) ≡ condition_at bs attr
  unfolding handler_at
  run_handler-is_ok [] [] attr s = unfold run_handler in unfold lift in rw mad refl
  run_handler-is_ok [] (b ∷ bs) attr s = ground (arith, s)
  run_handler-is_ok (h ∷ hs) [] attr s = ground (arith, s)
  run_handler-is_ok ((k, h) ∷ hs) ((j, b) ∷ bs) attr (same, at, rest) =
      elim (Bool-cases (k == attr)) [
        | inl here ↦ rw (same, here) (unfold run_handler in at)
        | inr there ↦ rw (same, there) (run_handler-is_ok hs bs attr rest)
      ]

  process_packet-is_ok :
      (hs : List (ℕ × Handler)) (bs : List (ℕ × Bool)) (attr : ℕ)
      → get_attr_id parser m ≡ ok attr
      → Decide m t hs bs
      → (ltb attr cm_max_attr_id ≡ false → condition_at bs attr ≡ true)
      → is_ok (process_packet d parser hs m t) ≡ condition_at bs attr
  unfolding process_packet lift
  process_packet-is_ok hs bs attr e s others = rw e (elim (Bool-cases (ltb attr cm_max_attr_id)) [
    | inl below ↦ rw below (run_handler-is_ok hs bs attr s)
    | inr above ↦ rw above (unfold run_handler in rw mad (sym (others above)))
  ])

  above-condition_at :
      (dir : Direction) (ip attr : ℕ)
      → ltb attr cm_max_attr_id ≡ false
      → condition_at (conditions dir m a ip t) attr ≡ true
  above-condition_at from_host ip attr h = ground arith
  above-condition_at from_net ip attr h = ground arith

module _ (d : Dpdk) (parser : DynfieldOffsets) (m : Mbuf) (a ip : ℕ) (t : Tracker) (i : Inv t)
    (mad : mad_header parser m ≡ ok a) (at : mbuf_ip d m ≡ ok ip) where
  handlers-Decide : (dir : Direction) → Decide m t (handlers d parser dir) (conditions dir m a ip t)
  handlers-Decide from_host = (
    refl,
    req_sent-is_ok d parser m a ip t i mad at,
    (
      refl,
      rej_sent-is_ok d parser m a ip t i mad at,
      (
        refl,
        rep_sent-is_ok d parser m a ip t i mad at,
        (
          refl,
          rtu_sent-is_ok d parser m a ip t i mad at,
          (
            refl,
            dreq_sent-is_ok d parser m a ip t i mad at,
            (refl, drep_sent-is_ok d parser m a ip t i mad at, tt),
          ),
        ),
      ),
    ),
  )
  handlers-Decide from_net = (
    refl,
    req_received-is_ok d parser m a ip t i mad at,
    (
      refl,
      rej_received-is_ok d parser m a ip t i mad at,
      (
        refl,
        rep_received-is_ok d parser m a ip t i mad at,
        (
          refl,
          rtu_received-is_ok d parser m a ip t i mad at,
          (
            refl,
            dreq_received-is_ok d parser m a ip t i mad at,
            (refl, drep_received-is_ok d parser m a ip t i mad at, tt),
          ),
        ),
      ),
    ),
  )

-- The tracker satisfies its invariant, and the packet has a MAD header and an IPv4 header. It is processed without
-- a failure exactly when `accepts` holds, which tests, by the attribute ID, that the lookup finds a flow or can make
-- one, that a REP that is waited for can give its flow the remote key, and that a repeated REQ has the same QP
-- number. A packet with another attribute ID is always processed.
pub process-accepts :
    (d : Dpdk) (parser : DynfieldOffsets) (m : Mbuf) (dir : Direction) (a ip : ℕ) (t : Tracker)
    → Inv t
    → ctcm_mbuf_get_mad parser m ≡ ok (some a)
    → mbuf_ip d m ≡ ok ip
    → is_ok (process d parser m dir t) ≡ accepts dir m a ip t
unfolding process
process-accepts d parser m from_host a ip t i mad at =
    let (header, attr) = mad_header-Carries parser m a _ (mad, refl) in
    process_packet-is_ok d parser m a t header _ (conditions from_host m a ip t) _ attr
      (handlers-Decide d parser m a ip t i header at from_host)
      (above-condition_at d parser m a t header from_host ip _)
process-accepts d parser m from_net a ip t i mad at =
    let (header, attr) = mad_header-Carries parser m a _ (mad, refl) in
    process_packet-is_ok d parser m a t header _ (conditions from_net m a ip t) _ attr
      (handlers-Decide d parser m a ip t i header at from_net)
      (above-condition_at d parser m a t header from_net ip _)
