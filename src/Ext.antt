-- ===== src/Ext.antt =====
-- src/rxe_hdr.h and src/rxe_opcode.h: the description of a received packet, the table that gives the place of each
-- header by the opcode, and the sizes of the header and of the payload. The table itself is an external array, a
-- parameter `rxe_opcode` here, whose lengths and offsets are taken not to be negative.
pub mod Headers
pub mod Wrappers
pub mod BthWrappers
pub mod Decode
pub mod Ack
pub mod Field
pub mod Frame
pub mod Assign
pub mod Payload
pub mod Width
pub mod Stored
use libconntrack_cm.Base.{ℕ, ◌+◌, ◌-◌, ◌^◌, ltb, if◌then◌else◌}
use libconntrack_cm.Packet.Memory.{Bytes}
use libconntrack_cm.Bth.{bth_pad, load_bth}

pub data HdrType : Type 0 where
  rxe_lrh rxe_grh rxe_bth rxe_reth rxe_aeth rxe_atmeth : HdrType
  rxe_atmack rxe_ieth rxe_rdeth rxe_deth rxe_immdt rxe_payload : HdrType

-- `mask` is a set of bits. The name is left out.
pub record OpcodeInfo : Type 0 where
  pub mask : ℕ
  pub length : ℕ
  pub offset : HdrType → ℕ

-- The pointers are addresses.
pub record PktInfo : Type 0 where
  pub rxe : ℕ
  pub qp : ℕ
  pub wqe : ℕ
  pub hdr : ℕ
  pub mask : ℕ
  pub psn : ℕ
  pub pkey_index : ℕ
  pub paylen : ℕ
  pub port_num : ℕ
  pub opcode : ℕ
  pub offset : ℕ

abbrev pub rxe_icrc_size : ℕ
rxe_icrc_size = 4

-- The sizes of the structures.
abbrev pub rxe_bth_bytes : ℕ
rxe_bth_bytes = 12

abbrev pub rxe_deth_bytes : ℕ
rxe_deth_bytes = 8

abbrev pub rxe_immdt_bytes : ℕ
rxe_immdt_bytes = 4

abbrev pub rxe_reth_bytes : ℕ
rxe_reth_bytes = 16

abbrev pub rxe_aeth_bytes : ℕ
rxe_aeth_bytes = 4

abbrev pub rxe_atmack_bytes : ℕ
rxe_atmack_bytes = 8

abbrev pub rxe_atmeth_bytes : ℕ
rxe_atmeth_bytes = 28

abbrev pub rxe_ieth_bytes : ℕ
rxe_ieth_bytes = 4

abbrev pub rxe_rdeth_bytes : ℕ
rxe_rdeth_bytes = 4

-- `pkt->hdr + pkt->offset`.
abbrev pub bth_addr : PktInfo → ℕ
bth_addr pkt = pkt.hdr + pkt.offset

module _ (rxe_opcode : ℕ → OpcodeInfo) where
  -- `pkt->hdr + pkt->offset + rxe_opcode[pkt->opcode].offset[type]`.
  abbrev pub hdr_addr : PktInfo → HdrType → ℕ
  hdr_addr pkt type = bth_addr pkt + (rxe_opcode pkt.opcode).offset type

  unfoldable pub header_size : PktInfo → ℕ
  header_size pkt = pkt.offset + (rxe_opcode pkt.opcode).length

  unfoldable pub payload_addr : PktInfo → ℕ
  payload_addr pkt = hdr_addr pkt rxe_payload

  -- The difference of the source is one of signed numbers, and a negative one becomes a `size_t`.
  unfoldable pub payload_size : Bytes → PktInfo → ℕ
  payload_size m pkt =
      let pad = bth_pad (load_bth m (bth_addr pkt)) in
      let rest = (rxe_opcode pkt.opcode).offset rxe_payload + pad + rxe_icrc_size in
      if ltb pkt.paylen rest then 2 ^ 64 - (rest - pkt.paylen) else pkt.paylen - rest
