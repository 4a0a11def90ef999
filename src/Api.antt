-- ===== src/Api.antt =====
-- src/main.cpp: the functions of the C interface on a context, and the history of calls of one context.
pub mod Setup
pub mod NullSafety
pub mod Stream
use libconntrack_cm.Base.{ℕ, Option, none, some, ltb, if◌then◌else◌}
use libconntrack_cm.Packet.{Result, ok, stop, ◌>>=◌, Dpdk, DynfieldOffsets, Mbuf, ctcm_mbuf_get_mad}
use libconntrack_cm.Cnp.{Status, success, failure}
use libconntrack_cm.Parser.{parse_packet}
use libconntrack_cm.Store.{Tracker, empty_tracker}
use libconntrack_cm.Tracker.{get_source_qpn}
use libconntrack_cm.Tracker.Dispatch.{Direction, process}

-- `struct ctcm_context`: the parser is its dynamic field offsets.
pub record Context : Type 0 where
  pub parser : DynfieldOffsets
  pub tracker : Tracker

abbrev pub ctcm_create : DynfieldOffsets → Context
ctcm_create parser = record { parser = parser; tracker = empty_tracker }

-- `sizeof(struct ctcm_dynfield_offsets)`: a `uint32_t` and two `int`s.
abbrev pub offsets_bytes : ℕ
offsets_bytes = 12

-- A structure that is too small is left alone; `errno` is left out.
unfoldable pub ctcm_dynfield_offsets : Context → DynfieldOffsets → Status × DynfieldOffsets
ctcm_dynfield_offsets ctcm offsets =
    if ltb offsets.size offsets_bytes
    then (failure, offsets)
    else (success, record offsets { bth = ctcm.parser.bth; mad = ctcm.parser.mad })

module _ (d : Dpdk) where
  unfoldable pub ctcm_parse_packet : Context → Mbuf → Result (Status × Mbuf)
  ctcm_parse_packet ctcm packet = do
    (mad, packet') ← parse_packet d ctcm.parser packet
    ok (success, packet')

  -- The tracker after `process`, which has the packet's effect on it.
  unfoldable pub process_mad : Context → Direction → Mbuf → Option ℕ → Result (Status × Context)
  process_mad ctcm dir packet none = ok (success, ctcm)
  process_mad ctcm dir packet (some mad) = do
    (done, tracker') ← process d ctcm.parser packet dir ctcm.tracker
    ok (success, record ctcm { tracker = tracker' })

  unfoldable pub ctcm_process_packet : Context → Direction → Mbuf → Result (Status × Context)
  ctcm_process_packet ctcm dir packet = do
    mad ← ctcm_mbuf_get_mad ctcm.parser packet
    process_mad ctcm dir packet mad

unfoldable pub ctcm_query_ipv4 : Context → ℕ → ℕ → ℕ
ctcm_query_ipv4 ctcm dest_ip dqpn = get_source_qpn ctcm.tracker (dest_ip, dqpn)
