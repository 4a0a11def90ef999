-- ===== src/Tests/Connection.antt =====
-- A connection from the first message to the query.
use libconntrack_cm.Base.{◌<◌, ◌≤◌, ◌≡◌, ◌≢◌, refl, true, false, none, length, List, [], ◌∷◌, arith}
use libconntrack_cm.Packet.{Result, ok, stop, null_access, mbuf_ip, ctcm_mbuf_get_mad, Mbuf}
use libconntrack_cm.Packet.Memory.{load32}
use libconntrack_cm.Iba.{iba_get, iba_get16}
use libconntrack_cm.Cm.{cm_field32_loc}
use libconntrack_cm.Store.{Ptr, Tracker, empty_tracker, lift, check, get_flow_key, CmState}
use libconntrack_cm.Tracker.{get_source_qpn, get_flow, add_new_flow, on_established}
use libconntrack_cm.Tracker.Message.{mad_header, get_attr_id, from_src}
use libconntrack_cm.Tracker.Host.{req_sent, on_req_sent, rtu_sent, on_rtu_sent}
use libconntrack_cm.Tracker.Net.{rep_received, on_rep_received}
use libconntrack_cm.Tracker.Dispatch.{
  Direction, from_host, from_net, process, process_packet, process_all,
}
use libconntrack_cm.Tracker.Invariant.{Inv, IsFlagged, IsListed, empty_tracker-Inv}
use libconntrack_cm.Tracker.Edges.{edge, state_of}
use libconntrack_cm.Tracker.Safety.{
  AllUsed, process-Inv, process-edge, process_all-AllUsed, get_source_qpn_sound,
  get_source_qpn_complete,
}
use libconntrack_cm.Tracker.Connect.{handshake-get_source_qpn}
use libconntrack_cm.Tracker.Table.{TableRun}
use libconntrack_cm.Tracker.Table.History.{
  has_rtu, process_all-refines, process_all-bounded, get_source_qpn_silent,
}
use libconntrack_cm.Api.{ctcm_create, ctcm_parse_packet, ctcm_process_packet}
use libconntrack_cm.Api.NullSafety.{ctcm_parse_process-NoNull}
use libconntrack_cm.Tests.Packets.{dpdk, offsets, sparse, req, rep, rtu, remote_address}

abbrev history : List (Mbuf × Direction)
history = (req, from_host) ∷ (rep, from_net) ∷ (rtu, from_host) ∷ []

handshake-get_source_qpn_example :
    (u : Tracker) × (process_all dpdk offsets history empty_tracker ≡ ok (tt, u))
    × (get_source_qpn u (remote_address, 33) ≡ 17)
unfolding sparse mbuf_ip ctcm_mbuf_get_mad load32 iba_get iba_get16 cm_field32_loc
handshake-get_source_qpn_example =
    handshake-get_source_qpn dpdk offsets req rep rtu 62 62 62 14 empty_tracker empty_tracker-Inv
      (refl, refl) (refl, refl) (refl, refl) refl (ground arith) refl refl refl (ground arith)
      (ground arith) refl refl refl

tracker_of : Result (Unit {0} × Tracker) → Tracker
tracker_of (ok (done, t)) = t
tracker_of (stop e) = empty_tracker

-- The trackers after the first packet and after all three.
after_req : Tracker
after_req = tracker_of (process dpdk offsets req from_host empty_tracker)

after_history : Tracker
after_history = tracker_of (process_all dpdk offsets history empty_tracker)

returns_req : process dpdk offsets req from_host empty_tracker ≡ ok (tt, after_req)
unfolding tracker_of after_history after_req process_all process process_packet req_sent
    rep_received rtu_sent sparse lift check get_flow mad_header get_attr_id from_src iba_get load32
    cm_field32_loc add_new_flow on_established on_req_sent on_rep_received on_rtu_sent mbuf_ip
returns_req = refl

returns : process_all dpdk offsets history empty_tracker ≡ ok (tt, after_history)
unfolding tracker_of after_history after_req process_all process process_packet req_sent
    rep_received rtu_sent sparse lift check get_flow mad_header get_attr_id from_src iba_get load32
    cm_field32_loc add_new_flow on_established on_req_sent on_rep_received on_rtu_sent mbuf_ip
returns = refl

query : get_source_qpn after_history (remote_address, 33) ≡ 17
unfolding tracker_of after_history after_req process_all process process_packet req_sent
    rep_received rtu_sent sparse lift check get_flow mad_header get_attr_id from_src iba_get load32
    cm_field32_loc add_new_flow on_established on_req_sent on_rep_received on_rtu_sent mbuf_ip
    get_source_qpn
query = refl

flagged : IsFlagged after_history 0
unfolding tracker_of after_history after_req process_all process process_packet req_sent
    rep_received rtu_sent sparse lift check get_flow mad_header get_attr_id from_src iba_get load32
    cm_field32_loc add_new_flow on_established on_req_sent on_rep_received on_rtu_sent mbuf_ip
flagged = refl

get_source_qpn_sound_example :
    (p : Ptr) × IsFlagged after_history p
    × IsListed after_history p
    × (get_flow_key (after_history.cells p) ≡ (remote_address, 33))
    × ((after_history.cells p).local_qpn ≡ get_source_qpn after_history (remote_address, 33))
get_source_qpn_sound_example =
    get_source_qpn_sound dpdk offsets history returns (remote_address, 33) (rw query (ground arith))

get_source_qpn_complete_example :
    (get_source_qpn after_history (get_flow_key (after_history.cells 0))
      ≡ (after_history.cells 0).local_qpn)
    × ((after_history.cells 0).local_qpn ≢ 0)
    × ((q : Ptr)
        → IsFlagged after_history q
        → get_flow_key (after_history.cells q) ≡ get_flow_key (after_history.cells 0)
        → q ≡ 0)
get_source_qpn_complete_example = get_source_qpn_complete dpdk offsets history returns 0 flagged

process_all-AllUsed_example : AllUsed after_history
process_all-AllUsed_example = process_all-AllUsed dpdk offsets history returns

process-Inv_example : Inv after_req
process-Inv_example = process-Inv dpdk offsets req from_host empty_tracker-Inv returns_req

process-edge_example :
    (0 ≤ after_req.next)
    × ((p : Ptr) → p < 0 → edge CmState.idle (state_of after_req p) ≡ true)
    × ((p : Ptr) → 0 ≤ p → p < after_req.next → edge CmState.idle (state_of after_req p) ≡ true)
process-edge_example = process-edge dpdk offsets req from_host empty_tracker-Inv returns_req

process_all-refines_example : TableRun offsets history (λ _. none) after_history.qpn_map
process_all-refines_example = process_all-refines dpdk offsets history returns

process_all-bounded_example : after_history.next ≤ length history
process_all-bounded_example = process_all-bounded dpdk offsets history returns

-- The first packet alone.
abbrev opening : List (Mbuf × Direction)
opening = (req, from_host) ∷ []

after_opening : Tracker
after_opening = tracker_of (process_all dpdk offsets opening empty_tracker)

returns_opening : process_all dpdk offsets opening empty_tracker ≡ ok (tt, after_opening)
unfolding tracker_of after_opening process_all process process_packet req_sent sparse lift check
    get_flow mad_header get_attr_id from_src iba_get load32 cm_field32_loc add_new_flow on_req_sent
    mbuf_ip
returns_opening = refl

no_rtu : has_rtu offsets opening ≡ false
unfolding has_rtu sparse get_attr_id mad_header iba_get16
no_rtu = refl

get_source_qpn_silent_example : get_source_qpn after_opening (remote_address, 33) ≡ 0
get_source_qpn_silent_example =
    get_source_qpn_silent dpdk offsets opening returns_opening no_rtu (remote_address, 33)

-- A packet to another UDP port.
abbrev other : Mbuf
other = record req { bytes = λ _. 0 }

ctcm_parse_process-NoNull_example :
    (ctcm_parse_packet dpdk (ctcm_create offsets) other ≢ stop null_access)
    × (ctcm_process_packet dpdk (ctcm_create offsets) from_host other ≢ stop null_access)
ctcm_parse_process-NoNull_example =
    ctcm_parse_process-NoNull dpdk (ctcm_create offsets) from_host other
