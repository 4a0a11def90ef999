-- ===== src/Parser.antt =====
-- src/parser.cpp: the headers of a RoCE v2 packet, from the UDP header to the MAD, and the packet's
-- dynamic fields that record where they stand. A pointer is an offset into the packet; the length that
-- an `extract_…` function counts down is returned with the pointer.
pub mod Headers
pub mod Accepts
pub mod Bounds
pub mod Reach
pub mod Context
use libconntrack_cm.Base.{
  ℕ, ◌+◌, ◌-◌, Bool, true, false, not, ◌||◌, Option, none, some, ltb, ◌==◌, if◌then◌else◌,
}
use libconntrack_cm.Packet.{
  Result, ok, ◌>>=◌, Dpdk, DynfieldOffsets, Mbuf, mbuf_udp, ctcm_mbuf_set_bth, ctcm_mbuf_set_mad,
}
use libconntrack_cm.Packet.Memory.{Bytes, load16, swap16}
use libconntrack_cm.Bth.{bth_opcode, bth_qpn, load_bth}

-- `sizeof(udphdr)`, `sizeof(rxe_bth)`, `sizeof(rxe_deth)` and `sizeof(ib_mad_hdr)`.
abbrev pub udp_bytes : ℕ
udp_bytes = 8

abbrev pub bth_bytes : ℕ
bth_bytes = 12

abbrev pub deth_bytes : ℕ
deth_bytes = 8

abbrev pub mad_bytes : ℕ
mad_bytes = 24

abbrev pub udp_port_roce_v2 : ℕ
udp_port_roce_v2 = 4791

-- `IB_OPCODE_UD + IB_OPCODE_SEND_ONLY`.
abbrev pub ib_opcode_ud_send_only : ℕ
ib_opcode_ud_send_only = 0x60 + 0x04

abbrev pub ib_mgmt_class_cm : ℕ
ib_mgmt_class_cm = 0x07

unfoldable pub extract_bth : Bytes → ℕ → ℕ → Option (ℕ × ℕ)
unfolding load16 swap16
extract_bth m udp len =
    if ltb len (bth_bytes + udp_bytes + 4) || not (load16 m (udp + 2) == swap16 udp_port_roce_v2)
    then none
    else some (udp + udp_bytes, len - (bth_bytes + 4))

unfoldable pub extract_deth : Bytes → ℕ → ℕ → Option (ℕ × ℕ)
extract_deth m bth len =
    if not (bth_opcode (load_bth m bth) == ib_opcode_ud_send_only) || ltb len deth_bytes
    then none
    else some (bth + bth_bytes, len - deth_bytes)

unfoldable pub extract_mad : ℕ → ℕ → Option ℕ
extract_mad deth len = if ltb len mad_bytes then none else some (deth + deth_bytes)

-- The MAD of a packet whose BTH is found, if it is a connection manager's MAD on QP 1.
unfoldable pub cm_mad : Bytes → ℕ → Option ℕ
cm_mad m mad = if not (m (mad + 1) == ib_mgmt_class_cm) then none else some mad

unfoldable pub mad_after_deth : Bytes → ℕ → Option (ℕ × ℕ) → Option ℕ
unfolding cm_mad extract_mad
mad_after_deth m bth none = none
mad_after_deth m bth (some (deth, len)) =
    if not (bth_qpn (load_bth m bth) == 1)
    then none
    else elim (extract_mad deth len) [ none ↦ none | some mad ↦ cm_mad m mad ]

-- The pointer that is stored in the packet's MAD field when one is found.
unfoldable pub record_mad : DynfieldOffsets → Mbuf → Option ℕ → Result (Option ℕ × Mbuf)
record_mad offsets packet none = ok (none, packet)
record_mad offsets packet (some mad) =
    ctcm_mbuf_set_mad offsets packet (some mad) >>= λ packet'. ok (some mad, packet')

abbrev pub pointer : Option (ℕ × ℕ) → Option ℕ
pointer none = none
pointer (some (p, len)) = some p

unfoldable pub parse_rest : DynfieldOffsets → Mbuf → Option (ℕ × ℕ) → Result (Option ℕ × Mbuf)
parse_rest offsets packet none = ok (none, packet)
parse_rest offsets packet (some (bth, len)) =
    record_mad offsets packet (mad_after_deth packet.bytes bth (extract_deth packet.bytes bth len))

-- `parser_context::parse_packet`: the MAD, and the packet with its dynamic fields set.
unfoldable pub parse_packet : Dpdk → DynfieldOffsets → Mbuf → Result (Option ℕ × Mbuf)
parse_packet d offsets packet = do
  udp ← mbuf_udp d packet
  let found = extract_bth packet.bytes udp (swap16 (load16 packet.bytes (udp + 4)))
  with_bth ← ctcm_mbuf_set_bth offsets packet (pointer found)
  cleared ← ctcm_mbuf_set_mad offsets with_bth none
  parse_rest offsets cleared found
