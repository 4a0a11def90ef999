-- ===== src/Tests/Closing.antt =====
-- The end of a connection, and packets that make an assertion fail, on concrete packets.
use libconntrack_cm.Base.{◌≡◌, refl, inl, true, false, none, some, arith, update, update₂}
use libconntrack_cm.Packet.{Result, ok, stop, assertion, mbuf_ip, ctcm_mbuf_get_mad}
use libconntrack_cm.Packet.Memory.{load32}
use libconntrack_cm.Iba.{iba_get, iba_get16}
use libconntrack_cm.Cm.{cm_field32_loc}
use libconntrack_cm.Store.{CmState, FlowState, Tracker, empty_tracker, check}
use libconntrack_cm.Tracker.{get_source_qpn, erase_flow, erase_local, disconnect, on_disconnected}
use libconntrack_cm.Tracker.Dispatch.{from_net, process}
use libconntrack_cm.Tracker.Teardown.{drep-get_source_qpn}
use libconntrack_cm.Tracker.Reject.{rej-get_source_qpn}
use libconntrack_cm.Tracker.Forget.{erase_flow-strands}
use libconntrack_cm.Tracker.Faults.{req_received-stop}
use libconntrack_cm.Tests.Packets.{dpdk, offsets, sparse, drep, rej, anonymous_req, remote_address}

-- A connection for which the host has sent its DREQ.
abbrev flow : FlowState
flow = record {
  state = CmState.dreq_sent;
  local_id = 5;
  remote_id = (remote_address, 9);
  local_qpn = 17;
  remote_qpn = 33;
  in_qpn_map = true;
}

abbrev closing : Tracker
closing = record {
  cells = update empty_tracker.cells 0 flow;
  next = 1;
  local_map = update empty_tracker.local_map 5 (some 0);
  remote_map = update₂ empty_tracker.remote_map (remote_address, 9) (some 0);
  qpn_map = update₂ empty_tracker.qpn_map (remote_address, 33) (some 17);
}

drep-get_source_qpn_example :
    (u : Tracker) × (process dpdk offsets drep from_net closing ≡ ok (tt, u))
    × (get_source_qpn u (remote_address, 33) ≡ 0)
    × (u.local_map 5 ≡ none)
unfolding sparse mbuf_ip ctcm_mbuf_get_mad load32 iba_get iba_get16 cm_field32_loc
drep-get_source_qpn_example =
    drep-get_source_qpn dpdk offsets drep 62 closing 0 flow 14 (refl, refl) refl (ground arith)
      (refl, refl) (inl refl) (refl, ground arith, ground arith, refl)

rej-get_source_qpn_example :
    (u : Tracker) × (process dpdk offsets rej from_net closing ≡ ok (tt, u))
    × (get_source_qpn u (remote_address, 33) ≡ 0)
    × (u.local_map 5 ≡ none)
unfolding sparse mbuf_ip ctcm_mbuf_get_mad load32 iba_get iba_get16 cm_field32_loc
rej-get_source_qpn_example =
    rej-get_source_qpn dpdk offsets rej 62 closing 0 flow 14 (refl, refl) refl (ground arith)
      (refl, refl) (refl, ground arith, ground arith, refl)

req_received-stop_example : process dpdk offsets anonymous_req from_net closing ≡ stop assertion
unfolding sparse mbuf_ip ctcm_mbuf_get_mad load32 iba_get iba_get16 cm_field32_loc
req_received-stop_example =
    req_received-stop dpdk offsets anonymous_req 62 14 closing (refl, refl) refl (inl refl)

-- Two flows; a message names the local ID of the first and the remote key of the second.
abbrev two_flows : Tracker
two_flows = record closing {
  cells =
      update closing.cells 1
        (record flow { local_id = 6; remote_id = (remote_address, 10); in_qpn_map = false });
  next = 2;
  local_map = update closing.local_map 6 (some 1);
  remote_map = update₂ closing.remote_map (remote_address, 10) (some 1);
}

tracker_of : Result (Unit {0} × Tracker) → Tracker
tracker_of (ok (done, t)) = t
tracker_of (stop e) = empty_tracker

after_mismatch : Tracker
after_mismatch = tracker_of (erase_flow 5 (remote_address, 10) two_flows)

mismatch : erase_flow 5 (remote_address, 10) two_flows ≡ ok (tt, after_mismatch)
unfolding after_mismatch tracker_of erase_flow erase_local disconnect on_disconnected check
mismatch = refl

erase_flow-strands_example :
    (after_mismatch.local_map 5 ≡ none)
    × (after_mismatch.remote_map (remote_address, 10) ≡ none)
    × (after_mismatch.remote_map (after_mismatch.cells 0).remote_id ≡ some 0)
erase_flow-strands_example =
    erase_flow-strands 5 (remote_address, 10) 0 1 two_flows (ground arith) refl refl refl refl
      mismatch
