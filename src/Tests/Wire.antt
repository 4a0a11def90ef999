-- ===== src/Tests/Wire.antt =====
-- The parser, the dynamic fields, the message fields and the transport header on concrete values.
use libconntrack_cm.Base.{
  ℕ, ◌+◌, ◌-◌, ◌%◌, ◌≤◌, ◌≡◌, ◌^◌, refl, true, false, Option, some, arith, ltb, [], ◌∷◌,
}
use libconntrack_cm.Packet.{
  Result, ok, stop, is_ok, Mbuf, mbuf_udp, ctcm_mbuf_set_bth, ctcm_mbuf_get_bth, ctcm_mbuf_get_mad,
  ctcm_mbuf_set_mad,
}
use libconntrack_cm.Packet.Memory.{load16, swap16, swap32}
use libconntrack_cm.Packet.Dynfields.{set_mad-get}
use libconntrack_cm.Bth.{
  bth_set_ack, bth_set_resv7, bth_set_opcode, bth_set_pkey, Bth, bth_set_qpn, bth_qpn, bth_fecn,
  bth_becn, bth_resv6a, bth_set_becn, bth_set_fecn, bth_set_resv6a, bth_se, bth_mig, bth_pad,
  bth_tver, bth_set_se, bth_set_mig, bth_set_pad, bth_set_tver, bth_psn, bth_ack, bth_set_psn,
  bth_init, bth_opcode, bth_pkey, load_bth,
}
use libconntrack_cm.Bth.Qpn.{bth_set_resv6a-overwrites}
use libconntrack_cm.Bth.Assign.{BthFields, decode_bth, bth_set-assigns}
use libconntrack_cm.Bth.Init.{bth_init-reads}
use libconntrack_cm.Parser.{
  parse_packet, parse_rest, extract_bth, extract_deth, mad_after_deth, record_mad, mad_bytes,
}
use libconntrack_cm.Parser.Accepts.{parse_packet-accepts}
use libconntrack_cm.Parser.Reach.{reach, parse_packet-is_ok}
use libconntrack_cm.Parser.Bounds.{parse_packet-ends}
use libconntrack_cm.Iba.{iba_get}
use libconntrack_cm.Cm.Req.{cm_req_local_comm_id, cm_req_local_qpn}
use libconntrack_cm.Cm.Rej.{cm_rej_local_comm_id, cm_rej_remote_comm_id}
use libconntrack_cm.Cm.Rep.{cm_rep_local_comm_id, cm_rep_remote_comm_id, cm_rep_local_qpn}
use libconntrack_cm.Cm.Rtu.{cm_rtu_local_comm_id, cm_rtu_remote_comm_id}
use libconntrack_cm.Cm.Dreq.{cm_dreq_local_comm_id, cm_dreq_remote_comm_id}
use libconntrack_cm.Cm.Drep.{cm_drep_local_comm_id, cm_drep_remote_comm_id}
use libconntrack_cm.Cm.Read.{iba_get-fields}
use libconntrack_cm.Tests.Packets.{dpdk, offsets, sparse, sparse-IsBytes, req, req-IsBytes}

is_udp : mbuf_udp dpdk req ≡ ok 34
unfolding mbuf_udp
is_udp = refl

parse_packet-accepts_example :
    (packet' : Mbuf) × (parse_packet dpdk offsets req ≡ ok (some 62, packet'))
    × (ctcm_mbuf_get_bth offsets packet' ≡ ok (some 42))
    × (ctcm_mbuf_get_mad offsets packet' ≡ ok (some 62))
    × (packet'.bytes ≡ req.bytes)
unfolding sparse
parse_packet-accepts_example =
    parse_packet-accepts dpdk offsets req req-IsBytes is_udp (ground arith) (ground arith)
      (ground arith)

packet_of : Result (Option ℕ × Mbuf) → Mbuf
packet_of (ok (mad, packet')) = packet'
packet_of (stop e) = req

-- The packet after it is parsed.
parsed : Mbuf
parsed = packet_of (parse_packet dpdk offsets req)

parses : parse_packet dpdk offsets req ≡ ok (some 62, parsed)
unfolding parsed packet_of parse_packet sparse extract_bth mbuf_udp load16 swap16 ctcm_mbuf_set_bth
    ctcm_mbuf_set_mad parse_rest mad_after_deth extract_deth record_mad bth_opcode bth_qpn load_bth
    swap32
parses = refl

parse_packet-ends_example : (62 ≡ req.l2_len + req.l3_len + 28) × (62 + mad_bytes ≤ 34 + 0x120 + 4)
unfolding sparse
parse_packet-ends_example =
    parse_packet-ends dpdk offsets req 62 parsed req-IsBytes is_udp (ground arith) (ground arith)
      (ground arith) parses

-- A packet that announces a BTH and ends before it.
short : Mbuf
short = record req { bytes = sparse ((36, 0x12) ∷ (37, 0xb7) ∷ (39, 24) ∷ []); pkt_len = 42 }

short_is_udp : mbuf_udp dpdk short ≡ ok 34
unfolding short mbuf_udp
short_is_udp = refl

parse_packet-is_ok_example : is_ok (parse_packet dpdk offsets short) ≡ ltb (reach short) 42
unfolding short
parse_packet-is_ok_example =
    parse_packet-is_ok dpdk offsets short (sparse-IsBytes ((36, 0x12) ∷ (37, 0xb7) ∷ (39, 24) ∷ []))
      short_is_udp

short-refused : ltb (reach short) 42 ≡ false
unfolding short sparse
short-refused = refl

set_mad-get_example :
    (packet' : Mbuf) × (ctcm_mbuf_set_mad offsets req (some 100) ≡ ok packet')
    × (ctcm_mbuf_get_mad offsets packet' ≡ ok (some 100))
    × (ctcm_mbuf_get_bth offsets packet' ≡ ctcm_mbuf_get_bth offsets req)
set_mad-get_example =
    set_mad-get offsets req (some 100) (ground arith) (ground arith) (ground arith) (ground arith)

iba_get-fields_example :
    (iba_get cm_req_local_comm_id req.bytes 62 ≡ 5)
    × (iba_get cm_req_local_qpn req.bytes 62 ≡ 17)
    × (iba_get cm_rej_local_comm_id req.bytes 62 ≡ 5)
    × (iba_get cm_rej_remote_comm_id req.bytes 62 ≡ 0)
    × (iba_get cm_rep_local_comm_id req.bytes 62 ≡ 5)
    × (iba_get cm_rep_remote_comm_id req.bytes 62 ≡ 0)
    × (iba_get cm_rep_local_qpn req.bytes 62 ≡ 0)
    × (iba_get cm_rtu_local_comm_id req.bytes 62 ≡ 5)
    × (iba_get cm_rtu_remote_comm_id req.bytes 62 ≡ 0)
    × (iba_get cm_dreq_local_comm_id req.bytes 62 ≡ 5)
    × (iba_get cm_dreq_remote_comm_id req.bytes 62 ≡ 0)
    × (iba_get cm_drep_local_comm_id req.bytes 62 ≡ 5)
    × (iba_get cm_drep_remote_comm_id req.bytes 62 ≡ 0)
unfolding sparse
iba_get-fields_example = iba_get-fields req.bytes 62 req-IsBytes

-- A header with all kinds of fields in use.
abbrev bth : Bth
bth = record { opcode = 0x64; flags = 0xc3; pkey = 0xffff; qpn = 0x0500_0080; apsn = 0x0900_0080 }

bth_set_resv6a-overwrites_example :
    (bth_resv6a (bth_set_resv6a bth) ≡ 0)
    × (bth_qpn (bth_set_resv6a bth) ≡ 2 ^ 24 - 1)
    × (bth_fecn (bth_set_resv6a bth) ≡ true)
    × (bth_becn (bth_set_resv6a bth) ≡ true)
bth_set_resv6a-overwrites_example = bth_set_resv6a-overwrites bth

abbrev fields : BthFields
fields = decode_bth bth

bth_set-assigns_example :
    ((decode_bth (bth_set_opcode bth 22) ≡ record fields { opcode = 22 % 2 ^ 8 })
      × (decode_bth (bth_set_se bth false) ≡ record fields { se = false })
      × (decode_bth (bth_set_mig bth false) ≡ record fields { mig = false })
      × (decode_bth (bth_set_pad bth 22) ≡ record fields { pad = 2 })
      × (decode_bth (bth_set_tver bth 22) ≡ record fields { tver = 6 })
      × (decode_bth (bth_set_pkey bth 22) ≡ record fields { pkey = 22 }))
    × ((decode_bth (bth_set_fecn bth false) ≡ record fields { fecn = false })
        × (decode_bth (bth_set_becn bth false) ≡ record fields { becn = false })
        × (decode_bth (bth_set_qpn bth 22) ≡ record fields { qpn = 22 }))
    × ((decode_bth (bth_set_ack bth false) ≡ record fields { ack = false })
        × (decode_bth (bth_set_resv7 bth) ≡ record fields { resv7 = 0 })
        × (decode_bth (bth_set_psn bth 22) ≡ record fields { psn = 22 }))
bth_set-assigns_example =
    bth_set-assigns bth (record { flags = ground arith; qpn = ground arith; apsn = ground arith })
      false 22

abbrev started : Bth
started = bth_init 4 true false 1 0xffff 7 true 9

bth_init-reads_example :
    ((bth_opcode started ≡ 4) × (bth_pkey started ≡ 0xffff))
    × ((bth_se started ≡ true)
        × (bth_mig started ≡ false)
        × (bth_pad started ≡ 1)
        × (bth_tver started ≡ 0))
    × ((bth_qpn started ≡ 7)
        × (bth_fecn started ≡ false)
        × (bth_becn started ≡ false)
        × (bth_resv6a started ≡ 0))
    × ((bth_psn started ≡ 9) × (bth_ack started ≡ true))
bth_init-reads_example = bth_init-reads 4 true false 1 0xffff 7 true 9 (ground arith)
