-- ===== src/Tests/Answering.antt =====
-- A connection that the remote side opens, on concrete packets.
use libconntrack_cm.Base.{◌≡◌, refl, arith, [], ◌∷◌}
use libconntrack_cm.Packet.{ok, mbuf_ip, ctcm_mbuf_get_mad}
use libconntrack_cm.Packet.Memory.{load32}
use libconntrack_cm.Iba.{iba_get, iba_get16}
use libconntrack_cm.Cm.{cm_field32_loc}
use libconntrack_cm.Store.{Tracker, empty_tracker}
use libconntrack_cm.Tracker.{get_source_qpn}
use libconntrack_cm.Tracker.Dispatch.{from_host, from_net, process_all}
use libconntrack_cm.Tracker.Invariant.{empty_tracker-Inv}
use libconntrack_cm.Tracker.Answer.{answer-get_source_qpn}
use libconntrack_cm.Tests.Packets.{
  dpdk, offsets, sparse, remote_req, host_rep, remote_rtu, remote_address,
}

answer-get_source_qpn_example :
    (u : Tracker) × (process_all dpdk offsets
        ((remote_req, from_net) ∷ (host_rep, from_host) ∷ (remote_rtu, from_net) ∷ [])
        empty_tracker
      ≡ ok (tt, u))
    × (get_source_qpn u (remote_address, 33) ≡ 17)
unfolding sparse mbuf_ip ctcm_mbuf_get_mad load32 iba_get iba_get16 cm_field32_loc
answer-get_source_qpn_example =
    answer-get_source_qpn dpdk offsets remote_req host_rep remote_rtu 62 62 62 14 14 empty_tracker
      empty_tracker-Inv (refl, refl) (refl, refl) (refl, refl) refl refl refl refl refl
      (ground arith) refl (ground arith) (ground arith) refl refl refl
