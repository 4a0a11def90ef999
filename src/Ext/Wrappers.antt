-- ===== src/Ext/Wrappers.antt =====
-- src/rxe_hdr.h: the accessors that take a packet, `pkt_deth_qkey` for `deth_qkey` of the source and so on: each
-- finds its header by the packet's opcode in the table `rxe_opcode`.
use libconntrack_cm.Base.{ℕ}
use libconntrack_cm.Packet.Memory.{Bytes}
use libconntrack_cm.Ext.{
  PktInfo, OpcodeInfo, hdr_addr, rxe_rdeth, rxe_deth, rxe_reth, rxe_atmeth, rxe_aeth, rxe_atmack,
  rxe_immdt, rxe_ieth,
}
use libconntrack_cm.Ext.Headers.{
  rdeth_een, rdeth_set_een, deth_qkey, deth_set_qkey, deth_sqp, deth_set_sqp, reth_va, reth_set_va,
  reth_rkey, reth_set_rkey, reth_len, reth_set_len, atmeth_va, atmeth_set_va, atmeth_rkey,
  atmeth_set_rkey, atmeth_swap_add, atmeth_set_swap_add, atmeth_comp, atmeth_set_comp, aeth_syn,
  aeth_set_syn, aeth_msn, aeth_set_msn, atmack_orig, atmack_set_orig, immdt_imm, immdt_set_imm,
  ieth_rkey, ieth_set_rkey,
}

module _ (rxe_opcode : ℕ → OpcodeInfo) where
  unfoldable pub pkt_rdeth_een : Bytes → PktInfo → ℕ
  pkt_rdeth_een m pkt = rdeth_een m (hdr_addr rxe_opcode pkt rxe_rdeth)

  unfoldable pub pkt_rdeth_set_een : Bytes → PktInfo → ℕ → Bytes
  pkt_rdeth_set_een m pkt een = rdeth_set_een m (hdr_addr rxe_opcode pkt rxe_rdeth) een

  unfoldable pub pkt_deth_qkey : Bytes → PktInfo → ℕ
  pkt_deth_qkey m pkt = deth_qkey m (hdr_addr rxe_opcode pkt rxe_deth)

  unfoldable pub pkt_deth_set_qkey : Bytes → PktInfo → ℕ → Bytes
  pkt_deth_set_qkey m pkt qkey = deth_set_qkey m (hdr_addr rxe_opcode pkt rxe_deth) qkey

  unfoldable pub pkt_deth_sqp : Bytes → PktInfo → ℕ
  pkt_deth_sqp m pkt = deth_sqp m (hdr_addr rxe_opcode pkt rxe_deth)

  unfoldable pub pkt_deth_set_sqp : Bytes → PktInfo → ℕ → Bytes
  pkt_deth_set_sqp m pkt sqp = deth_set_sqp m (hdr_addr rxe_opcode pkt rxe_deth) sqp

  unfoldable pub pkt_reth_va : Bytes → PktInfo → ℕ
  pkt_reth_va m pkt = reth_va m (hdr_addr rxe_opcode pkt rxe_reth)

  unfoldable pub pkt_reth_set_va : Bytes → PktInfo → ℕ → Bytes
  pkt_reth_set_va m pkt va = reth_set_va m (hdr_addr rxe_opcode pkt rxe_reth) va

  unfoldable pub pkt_reth_rkey : Bytes → PktInfo → ℕ
  pkt_reth_rkey m pkt = reth_rkey m (hdr_addr rxe_opcode pkt rxe_reth)

  unfoldable pub pkt_reth_set_rkey : Bytes → PktInfo → ℕ → Bytes
  pkt_reth_set_rkey m pkt rkey = reth_set_rkey m (hdr_addr rxe_opcode pkt rxe_reth) rkey

  unfoldable pub pkt_reth_len : Bytes → PktInfo → ℕ
  pkt_reth_len m pkt = reth_len m (hdr_addr rxe_opcode pkt rxe_reth)

  unfoldable pub pkt_reth_set_len : Bytes → PktInfo → ℕ → Bytes
  pkt_reth_set_len m pkt len = reth_set_len m (hdr_addr rxe_opcode pkt rxe_reth) len

  unfoldable pub pkt_atmeth_va : Bytes → PktInfo → ℕ
  pkt_atmeth_va m pkt = atmeth_va m (hdr_addr rxe_opcode pkt rxe_atmeth)

  unfoldable pub pkt_atmeth_set_va : Bytes → PktInfo → ℕ → Bytes
  pkt_atmeth_set_va m pkt va = atmeth_set_va m (hdr_addr rxe_opcode pkt rxe_atmeth) va

  unfoldable pub pkt_atmeth_rkey : Bytes → PktInfo → ℕ
  pkt_atmeth_rkey m pkt = atmeth_rkey m (hdr_addr rxe_opcode pkt rxe_atmeth)

  unfoldable pub pkt_atmeth_set_rkey : Bytes → PktInfo → ℕ → Bytes
  pkt_atmeth_set_rkey m pkt rkey = atmeth_set_rkey m (hdr_addr rxe_opcode pkt rxe_atmeth) rkey

  unfoldable pub pkt_atmeth_swap_add : Bytes → PktInfo → ℕ
  pkt_atmeth_swap_add m pkt = atmeth_swap_add m (hdr_addr rxe_opcode pkt rxe_atmeth)

  unfoldable pub pkt_atmeth_set_swap_add : Bytes → PktInfo → ℕ → Bytes
  pkt_atmeth_set_swap_add m pkt swap_add =
      atmeth_set_swap_add m (hdr_addr rxe_opcode pkt rxe_atmeth) swap_add

  unfoldable pub pkt_atmeth_comp : Bytes → PktInfo → ℕ
  pkt_atmeth_comp m pkt = atmeth_comp m (hdr_addr rxe_opcode pkt rxe_atmeth)

  unfoldable pub pkt_atmeth_set_comp : Bytes → PktInfo → ℕ → Bytes
  pkt_atmeth_set_comp m pkt comp = atmeth_set_comp m (hdr_addr rxe_opcode pkt rxe_atmeth) comp

  unfoldable pub pkt_aeth_syn : Bytes → PktInfo → ℕ
  pkt_aeth_syn m pkt = aeth_syn m (hdr_addr rxe_opcode pkt rxe_aeth)

  unfoldable pub pkt_aeth_set_syn : Bytes → PktInfo → ℕ → Bytes
  pkt_aeth_set_syn m pkt syn = aeth_set_syn m (hdr_addr rxe_opcode pkt rxe_aeth) syn

  unfoldable pub pkt_aeth_msn : Bytes → PktInfo → ℕ
  pkt_aeth_msn m pkt = aeth_msn m (hdr_addr rxe_opcode pkt rxe_aeth)

  unfoldable pub pkt_aeth_set_msn : Bytes → PktInfo → ℕ → Bytes
  pkt_aeth_set_msn m pkt msn = aeth_set_msn m (hdr_addr rxe_opcode pkt rxe_aeth) msn

  unfoldable pub pkt_atmack_orig : Bytes → PktInfo → ℕ
  pkt_atmack_orig m pkt = atmack_orig m (hdr_addr rxe_opcode pkt rxe_atmack)

  unfoldable pub pkt_atmack_set_orig : Bytes → PktInfo → ℕ → Bytes
  pkt_atmack_set_orig m pkt orig = atmack_set_orig m (hdr_addr rxe_opcode pkt rxe_atmack) orig

  unfoldable pub pkt_immdt_imm : Bytes → PktInfo → ℕ
  pkt_immdt_imm m pkt = immdt_imm m (hdr_addr rxe_opcode pkt rxe_immdt)

  unfoldable pub pkt_immdt_set_imm : Bytes → PktInfo → ℕ → Bytes
  pkt_immdt_set_imm m pkt imm = immdt_set_imm m (hdr_addr rxe_opcode pkt rxe_immdt) imm

  unfoldable pub pkt_ieth_rkey : Bytes → PktInfo → ℕ
  pkt_ieth_rkey m pkt = ieth_rkey m (hdr_addr rxe_opcode pkt rxe_ieth)

  unfoldable pub pkt_ieth_set_rkey : Bytes → PktInfo → ℕ → Bytes
  pkt_ieth_set_rkey m pkt rkey = ieth_set_rkey m (hdr_addr rxe_opcode pkt rxe_ieth) rkey
