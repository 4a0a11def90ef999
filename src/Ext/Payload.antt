-- ===== src/Ext/Payload.antt =====
-- The payload of a packet between its headers and its padding and ICRC.
use libconntrack_cm.Base.{ℕ, ◌+◌, ◌/◌, ◌%◌, ◌^◌, ◌<◌, ◌≤◌, ◌≡◌, arith, ◌⊎◌}
use libconntrack_cm.Base.Bits.{bit_and-split, ones-bit_and, bit_and_comm, bit_and-zero}
use libconntrack_cm.Packet.Memory.{Bytes}
use libconntrack_cm.Bth.{Bth, bth_pad, load_bth}
use libconntrack_cm.Ext.{
  OpcodeInfo, PktInfo, bth_addr, rxe_payload, rxe_icrc_size, payload_addr, payload_size,
}

pub bth_pad-lt : (b : Bth) → bth_pad b < 4
unfolding bth_pad
bth_pad-lt b = ground (
  arith,
  bit_and-split 4 3 0 (b.flags / 2 ^ 4) (b.flags % 2 ^ 4),
  ones-bit_and 2 (b.flags / 2 ^ 4),
  bit_and_comm 0 (b.flags % 2 ^ 4),
  bit_and-zero (b.flags % 2 ^ 4),
)

module _ (rxe_opcode : ℕ → OpcodeInfo) where
  -- On a packet of a 16-bit length whose opcode has its payload below 2 ^ 31: the size is at most the packet's
  -- length exactly when the packet holds its headers, its padding and the ICRC, and then the payload, the padding
  -- and the ICRC end where the packet ends; otherwise the size has wrapped around to at least 2 ^ 63.
  pub payload_size-exact :
      (m : Bytes) (pkt : PktInfo)
      → pkt.paylen < 2 ^ 16
      → (rxe_opcode pkt.opcode).offset rxe_payload < 2 ^ 31
      → (let size = payload_size rxe_opcode m pkt in
          let trailer = bth_pad (load_bth m (bth_addr pkt)) + rxe_icrc_size in
          ((((rxe_opcode pkt.opcode).offset rxe_payload + trailer ≤ pkt.paylen)
              × (payload_addr rxe_opcode pkt + size + trailer ≡ bth_addr pkt + pkt.paylen)
              × (size ≤ pkt.paylen))
            ⊎ ((pkt.paylen < (rxe_opcode pkt.opcode).offset rxe_payload + trailer)
                × (2 ^ 63 ≤ size)
                × (size < 2 ^ 64))))
  unfolding payload_size payload_addr
  payload_size-exact m pkt hp ho = ground (arith, bth_pad-lt (load_bth m (bth_addr pkt)))
