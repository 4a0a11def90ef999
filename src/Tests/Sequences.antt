-- ===== src/Tests/Sequences.antt =====
-- Sequences of messages: one that is repeated, one of another connection, and a whole connection.
use libconntrack_cm.Base.{◌<◌, ◌≡◌, ◌≢◌, refl, List, [], ◌∷◌, arith, true, false}
use libconntrack_cm.Packet.{is_ok, Result, ok, stop, mbuf_udp, mbuf_ip, ctcm_mbuf_get_mad, Mbuf}
use libconntrack_cm.Packet.Memory.{load32}
use libconntrack_cm.Iba.{iba_get, iba_get16}
use libconntrack_cm.Cm.{cm_field32_loc}
use libconntrack_cm.Store.{Ptr, Tracker, empty_tracker, lift, check, get_flow_key}
use libconntrack_cm.Tracker.{get_source_qpn, get_flow, add_new_flow, on_established}
use libconntrack_cm.Tracker.Message.{mad_header, get_attr_id, from_src}
use libconntrack_cm.Tracker.Host.{req_sent, on_req_sent, rtu_sent, on_rtu_sent}
use libconntrack_cm.Tracker.Net.{rep_received, on_rep_received}
use libconntrack_cm.Tracker.Dispatch.{
  Direction, from_host, from_net, process, process_packet, process_all,
}
use libconntrack_cm.Tracker.Invariant.{Inv, IsFlagged, empty_tracker-Inv}
use libconntrack_cm.Tracker.Safety.{process_all-Inv}
use libconntrack_cm.Tracker.Repeat.Process.{process-again}
use libconntrack_cm.Tracker.Isolate.Process.{process-isolates}
use libconntrack_cm.Tracker.Lifecycle.{lifecycle-restores}
use libconntrack_cm.Tracker.Total.Conditions.{accepts}
use libconntrack_cm.Tracker.Total.Process.{process-accepts}
use libconntrack_cm.Api.{Context, ctcm_create}
use libconntrack_cm.Api.Stream.{
  handle_all, handle_all-process_all, with_tracker, messages, parsed, AllUdp,
}
use libconntrack_cm.Tests.Packets.{
  dpdk, offsets, sparse, req, rep, rtu, dreq, drep, other_req, anonymous_req, req-IsBytes,
  packet-IsBytes,
}

abbrev history : List (Mbuf × Direction)
history = (req, from_host) ∷ (rep, from_net) ∷ (rtu, from_host) ∷ []

tracker_of : Result (Unit {0} × Tracker) → Tracker
tracker_of (ok (done, t)) = t
tracker_of (stop e) = empty_tracker

-- The trackers after an established connection, and after another REQ, once and twice.
established : Tracker
established = tracker_of (process_all dpdk offsets history empty_tracker)

requested : Tracker
requested = tracker_of (process dpdk offsets other_req from_host established)

runs : process_all dpdk offsets history empty_tracker ≡ ok (tt, established)
unfolding tracker_of established process_all process process_packet req_sent rep_received rtu_sent
    sparse lift check get_flow mad_header get_attr_id from_src iba_get load32 cm_field32_loc
    add_new_flow on_established on_req_sent on_rep_received on_rtu_sent mbuf_ip
runs = refl

runs_other : process dpdk offsets other_req from_host established ≡ ok (tt, requested)
unfolding tracker_of established requested process_all process process_packet req_sent rep_received
    rtu_sent sparse lift check get_flow mad_header get_attr_id from_src iba_get load32
    cm_field32_loc add_new_flow on_established on_req_sent on_rep_received on_rtu_sent mbuf_ip
runs_other = refl

established-Inv : Inv established
established-Inv = process_all-Inv dpdk offsets history runs

other_attr : get_attr_id offsets other_req ≡ ok 0x10
unfolding get_attr_id mad_header iba_get16 sparse
other_attr = refl

not_rej : get_attr_id offsets other_req ≢ ok 0x12
not_rej e = cc other_attr

not_drep : get_attr_id offsets other_req ≢ ok 0x16
not_drep e = cc other_attr

process-again_example : process dpdk offsets other_req from_host requested ≡ ok (tt, requested)
process-again_example =
    process-again dpdk offsets other_req from_host established requested not_rej not_drep
      established-Inv runs_other

process-isolates_example :
    (p : Ptr) × ((q : Ptr)
      → q < established.next
      → q ≢ p
      → (requested.cells q ≡ established.cells q)
        × (IsFlagged established q
            → get_source_qpn requested (get_flow_key (established.cells q))
              ≡ (established.cells q).local_qpn))
process-isolates_example =
    process-isolates dpdk offsets other_req from_host established requested established-Inv
      runs_other

lifecycle-restores_example :
    (u : Tracker) × (process_all dpdk offsets
        ((req, from_host)
          ∷ (rep, from_net)
          ∷ (rtu, from_host)
          ∷ (dreq, from_host)
          ∷ (drep, from_net)
          ∷ [])
        empty_tracker
      ≡ ok (tt, u))
    × (u.local_map ≡ empty_tracker.local_map)
    × (u.remote_map ≡ empty_tracker.remote_map)
    × (u.qpn_map ≡ empty_tracker.qpn_map)
unfolding sparse mbuf_ip ctcm_mbuf_get_mad load32 iba_get iba_get16 cm_field32_loc
lifecycle-restores_example =
    lifecycle-restores dpdk offsets req rep rtu dreq drep 62 62 62 62 62 14 14 empty_tracker
      empty_tracker-Inv (refl, refl) (refl, refl) (refl, refl) (refl, refl) (refl, refl) refl refl
      (ground arith) refl refl refl refl refl refl refl (ground arith) (ground arith) refl refl refl

-- A connection's messages with a packet of zeros among them, which has no MAD.
plain : Mbuf
plain = record req { bytes = λ _. 0 }

abbrev stream : List (Mbuf × Direction)
stream = (req, from_host) ∷ (plain, from_net) ∷ (rep, from_net) ∷ []

abbrev started : Context
started = ctcm_create offsets

stream-AllUdp : AllUdp dpdk stream
unfolding plain mbuf_udp
stream-AllUdp = (
  record { bytes = req-IsBytes; is_udp = refl; inside = ground arith; fits = ground arith },
  (
    record { bytes = λ a. omega arith; is_udp = refl; inside = ground arith; fits = ground arith },
    (
      record {
        bytes = packet-IsBytes ((79, 0x13) ∷ (89, 9) ∷ (93, 5) ∷ (100, 33) ∷ []);
        is_udp = refl;
        inside = ground arith;
        fits = ground arith;
      },
      tt,
    ),
  ),
)

handle_all-process_all_example :
    handle_all dpdk stream started
    ≡ with_tracker started
        (process_all dpdk started.parser (messages dpdk started.parser stream) started.tracker)
handle_all-process_all_example =
    handle_all-process_all dpdk stream started stream-AllUdp (ground arith)

process-accepts_example :
    is_ok (process dpdk offsets rep from_net established) ≡ accepts from_net rep 62 14 established
unfolding mbuf_ip ctcm_mbuf_get_mad sparse
process-accepts_example =
    process-accepts dpdk offsets rep from_net 62 14 established established-Inv refl refl

-- A REQ whose communication ID is 0 is not processed, one of a new connection is.
anonymous_req-refused : accepts from_host anonymous_req 62 14 established ≡ false
unfolding sparse iba_get iba_get16 load32 cm_field32_loc
anonymous_req-refused = refl

other_req-accepted : accepts from_host other_req 62 14 established ≡ true
unfolding sparse iba_get iba_get16 load32 cm_field32_loc established tracker_of process_all process
    process_packet req_sent rep_received rtu_sent lift check get_flow mad_header get_attr_id
    from_src add_new_flow on_established on_req_sent on_rep_received on_rtu_sent mbuf_ip
other_req-accepted = refl

-- The packet of zeros is not a CM message.
stream-messages :
    messages dpdk offsets stream
    ≡ (parsed dpdk offsets req, from_host) ∷ (parsed dpdk offsets rep, from_net) ∷ []
unfolding sparse plain messages
stream-messages = refl
