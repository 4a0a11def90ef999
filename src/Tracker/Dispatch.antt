-- ===== src/Tracker/Dispatch.antt =====
-- `process` and `process_packet` of src/cm_connection_tracker.cpp, the handler tables that the
-- constructor fills, and the attribute IDs of src/ib_cm.h.
use libconntrack_cm.Base.{ℕ, List, [], ◌∷◌, Option, none, some, ltb, ◌==◌, if◌then◌else◌}
use libconntrack_cm.Packet.{Dpdk, DynfieldOffsets, Mbuf, ok}
use libconntrack_cm.Store.{and_then, M, pure, ◌>>=◌, lift}
use libconntrack_cm.Tracker.Message.{get_attr_id, mad_header}
use libconntrack_cm.Tracker.Host.{req_sent, rej_sent, rep_sent, rtu_sent, dreq_sent, drep_sent}
use libconntrack_cm.Tracker.Net.{
  req_received, rej_received, rep_received, rtu_received, dreq_received, drep_received,
}

abbrev pub cm_req_attr_id : ℕ
cm_req_attr_id = 0x10

abbrev pub cm_rej_attr_id : ℕ
cm_rej_attr_id = 0x12

abbrev pub cm_rep_attr_id : ℕ
cm_rep_attr_id = 0x13

abbrev pub cm_rtu_attr_id : ℕ
cm_rtu_attr_id = 0x14

abbrev pub cm_dreq_attr_id : ℕ
cm_dreq_attr_id = 0x15

abbrev pub cm_drep_attr_id : ℕ
cm_drep_attr_id = 0x16

abbrev pub cm_max_attr_id : ℕ
cm_max_attr_id = 0x20

pub data Direction : Type 0 where
  from_host from_net : Direction

abbrev pub Handler : Type 0
Handler = Mbuf → M (Unit {0})

-- A table of handlers, `std::vector<handler>` of size `cm_max_attr_id`, by the entries that are set; an
-- empty `std::function` is `none`.
unfoldable pub handler_at : List (ℕ × Handler) → ℕ → Option Handler
handler_at [] attr_id = none
handler_at ((k, h) ∷ rest) attr_id = if k == attr_id then some h else handler_at rest attr_id

module _ (d : Dpdk) (parser : DynfieldOffsets) where
  abbrev pub host_handlers : List (ℕ × Handler)
  host_handlers =
      (cm_req_attr_id, req_sent d parser)
      ∷ (cm_rej_attr_id, rej_sent d parser)
      ∷ (cm_rep_attr_id, rep_sent d parser)
      ∷ (cm_rtu_attr_id, rtu_sent d parser)
      ∷ (cm_dreq_attr_id, dreq_sent d parser)
      ∷ (cm_drep_attr_id, drep_sent d parser)
      ∷ []

  abbrev pub net_handlers : List (ℕ × Handler)
  net_handlers =
      (cm_req_attr_id, req_received d parser)
      ∷ (cm_rej_attr_id, rej_received d parser)
      ∷ (cm_rep_attr_id, rep_received d parser)
      ∷ (cm_rtu_attr_id, rtu_received d parser)
      ∷ (cm_dreq_attr_id, dreq_received d parser)
      ∷ (cm_drep_attr_id, drep_received d parser)
      ∷ []

  -- Without a handler the packet is only logged, which reads its MAD header.
  unfoldable pub run_handler : Option Handler → Handler
  run_handler (some h) p = h p
  run_handler none p = lift (mad_header parser p) >>= λ hdr. pure tt

  unfoldable pub process_packet : List (ℕ × Handler) → Handler
  unfolding run_handler handler_at
  process_packet handlers p = do
    attr_id ← lift (get_attr_id parser p)
    run_handler (if ltb attr_id cm_max_attr_id then handler_at handlers attr_id else none) p

  unfoldable pub process : Mbuf → Direction → M (Unit {0})
  process p from_host = process_packet host_handlers p
  process p from_net = process_packet net_handlers p

  -- A history of packets; the first failure ends it.
  unfoldable pub process_all : List (Mbuf × Direction) → M (Unit {0})
  process_all [] t = ok (tt, t)
  process_all ((p, dir) ∷ ps) t = and_then (process p dir t) λ _. process_all ps
