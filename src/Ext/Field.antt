-- ===== src/Ext/Field.antt =====
-- The fields of the extended transport headers as one type, each with its header, its accessors and the
-- accessors of a packet, so that a law can speak of all of them.
use libconntrack_cm.Base.{ℕ}
use libconntrack_cm.Packet.Memory.{Bytes}
use libconntrack_cm.Ext.{
  OpcodeInfo, PktInfo, HdrType, rxe_rdeth, rxe_deth, rxe_reth, rxe_atmeth, rxe_aeth, rxe_atmack,
  rxe_immdt, rxe_ieth, rxe_rdeth_bytes, rxe_deth_bytes, rxe_reth_bytes, rxe_atmeth_bytes,
  rxe_aeth_bytes, rxe_atmack_bytes, rxe_immdt_bytes, rxe_ieth_bytes,
}
use libconntrack_cm.Ext.Headers.{
  rdeth_een, rdeth_set_een, deth_qkey, deth_set_qkey, deth_sqp, deth_set_sqp, reth_va, reth_set_va,
  reth_rkey, reth_set_rkey, reth_len, reth_set_len, atmeth_va, atmeth_set_va, atmeth_rkey,
  atmeth_set_rkey, atmeth_swap_add, atmeth_set_swap_add, atmeth_comp, atmeth_set_comp, aeth_syn,
  aeth_set_syn, aeth_msn, aeth_set_msn, atmack_orig, atmack_set_orig, immdt_imm, immdt_set_imm,
  ieth_rkey, ieth_set_rkey,
}
use libconntrack_cm.Ext.Wrappers.{
  pkt_rdeth_een, pkt_rdeth_set_een, pkt_deth_qkey, pkt_deth_set_qkey, pkt_deth_sqp,
  pkt_deth_set_sqp, pkt_reth_va, pkt_reth_set_va, pkt_reth_rkey, pkt_reth_set_rkey, pkt_reth_len,
  pkt_reth_set_len, pkt_atmeth_va, pkt_atmeth_set_va, pkt_atmeth_rkey, pkt_atmeth_set_rkey,
  pkt_atmeth_swap_add, pkt_atmeth_set_swap_add, pkt_atmeth_comp, pkt_atmeth_set_comp, pkt_aeth_syn,
  pkt_aeth_set_syn, pkt_aeth_msn, pkt_aeth_set_msn, pkt_atmack_orig, pkt_atmack_set_orig,
  pkt_immdt_imm, pkt_immdt_set_imm, pkt_ieth_rkey, pkt_ieth_set_rkey,
}

pub data ExtField : Type 0 where
  rdeth_een_field deth_qkey_field deth_sqp_field reth_va_field reth_rkey_field reth_len_field
        atmeth_va_field atmeth_rkey_field atmeth_swap_add_field atmeth_comp_field aeth_syn_field
        aeth_msn_field atmack_orig_field immdt_imm_field ieth_rkey_field :
      ExtField

unfoldable pub hdr_type : ExtField → HdrType
hdr_type rdeth_een_field = rxe_rdeth
hdr_type deth_qkey_field = rxe_deth
hdr_type deth_sqp_field = rxe_deth
hdr_type reth_va_field = rxe_reth
hdr_type reth_rkey_field = rxe_reth
hdr_type reth_len_field = rxe_reth
hdr_type atmeth_va_field = rxe_atmeth
hdr_type atmeth_rkey_field = rxe_atmeth
hdr_type atmeth_swap_add_field = rxe_atmeth
hdr_type atmeth_comp_field = rxe_atmeth
hdr_type aeth_syn_field = rxe_aeth
hdr_type aeth_msn_field = rxe_aeth
hdr_type atmack_orig_field = rxe_atmack
hdr_type immdt_imm_field = rxe_immdt
hdr_type ieth_rkey_field = rxe_ieth

unfoldable pub hdr_bytes : ExtField → ℕ
hdr_bytes rdeth_een_field = rxe_rdeth_bytes
hdr_bytes deth_qkey_field = rxe_deth_bytes
hdr_bytes deth_sqp_field = rxe_deth_bytes
hdr_bytes reth_va_field = rxe_reth_bytes
hdr_bytes reth_rkey_field = rxe_reth_bytes
hdr_bytes reth_len_field = rxe_reth_bytes
hdr_bytes atmeth_va_field = rxe_atmeth_bytes
hdr_bytes atmeth_rkey_field = rxe_atmeth_bytes
hdr_bytes atmeth_swap_add_field = rxe_atmeth_bytes
hdr_bytes atmeth_comp_field = rxe_atmeth_bytes
hdr_bytes aeth_syn_field = rxe_aeth_bytes
hdr_bytes aeth_msn_field = rxe_aeth_bytes
hdr_bytes atmack_orig_field = rxe_atmack_bytes
hdr_bytes immdt_imm_field = rxe_immdt_bytes
hdr_bytes ieth_rkey_field = rxe_ieth_bytes

-- The accessors of a header at an address.
unfoldable pub ext_get : ExtField → Bytes → ℕ → ℕ
ext_get rdeth_een_field m arg = rdeth_een m arg
ext_get deth_qkey_field m arg = deth_qkey m arg
ext_get deth_sqp_field m arg = deth_sqp m arg
ext_get reth_va_field m arg = reth_va m arg
ext_get reth_rkey_field m arg = reth_rkey m arg
ext_get reth_len_field m arg = reth_len m arg
ext_get atmeth_va_field m arg = atmeth_va m arg
ext_get atmeth_rkey_field m arg = atmeth_rkey m arg
ext_get atmeth_swap_add_field m arg = atmeth_swap_add m arg
ext_get atmeth_comp_field m arg = atmeth_comp m arg
ext_get aeth_syn_field m arg = aeth_syn m arg
ext_get aeth_msn_field m arg = aeth_msn m arg
ext_get atmack_orig_field m arg = atmack_orig m arg
ext_get immdt_imm_field m arg = immdt_imm m arg
ext_get ieth_rkey_field m arg = ieth_rkey m arg

unfoldable pub ext_set : ExtField → Bytes → ℕ → ℕ → Bytes
ext_set rdeth_een_field m arg v = rdeth_set_een m arg v
ext_set deth_qkey_field m arg v = deth_set_qkey m arg v
ext_set deth_sqp_field m arg v = deth_set_sqp m arg v
ext_set reth_va_field m arg v = reth_set_va m arg v
ext_set reth_rkey_field m arg v = reth_set_rkey m arg v
ext_set reth_len_field m arg v = reth_set_len m arg v
ext_set atmeth_va_field m arg v = atmeth_set_va m arg v
ext_set atmeth_rkey_field m arg v = atmeth_set_rkey m arg v
ext_set atmeth_swap_add_field m arg v = atmeth_set_swap_add m arg v
ext_set atmeth_comp_field m arg v = atmeth_set_comp m arg v
ext_set aeth_syn_field m arg v = aeth_set_syn m arg v
ext_set aeth_msn_field m arg v = aeth_set_msn m arg v
ext_set atmack_orig_field m arg v = atmack_set_orig m arg v
ext_set immdt_imm_field m arg v = immdt_set_imm m arg v
ext_set ieth_rkey_field m arg v = ieth_set_rkey m arg v

-- The accessors of a packet.
module _ (rxe_opcode : ℕ → OpcodeInfo) where
  unfoldable pub pkt_get : ExtField → Bytes → PktInfo → ℕ
  pkt_get rdeth_een_field m pkt = pkt_rdeth_een rxe_opcode m pkt
  pkt_get deth_qkey_field m pkt = pkt_deth_qkey rxe_opcode m pkt
  pkt_get deth_sqp_field m pkt = pkt_deth_sqp rxe_opcode m pkt
  pkt_get reth_va_field m pkt = pkt_reth_va rxe_opcode m pkt
  pkt_get reth_rkey_field m pkt = pkt_reth_rkey rxe_opcode m pkt
  pkt_get reth_len_field m pkt = pkt_reth_len rxe_opcode m pkt
  pkt_get atmeth_va_field m pkt = pkt_atmeth_va rxe_opcode m pkt
  pkt_get atmeth_rkey_field m pkt = pkt_atmeth_rkey rxe_opcode m pkt
  pkt_get atmeth_swap_add_field m pkt = pkt_atmeth_swap_add rxe_opcode m pkt
  pkt_get atmeth_comp_field m pkt = pkt_atmeth_comp rxe_opcode m pkt
  pkt_get aeth_syn_field m pkt = pkt_aeth_syn rxe_opcode m pkt
  pkt_get aeth_msn_field m pkt = pkt_aeth_msn rxe_opcode m pkt
  pkt_get atmack_orig_field m pkt = pkt_atmack_orig rxe_opcode m pkt
  pkt_get immdt_imm_field m pkt = pkt_immdt_imm rxe_opcode m pkt
  pkt_get ieth_rkey_field m pkt = pkt_ieth_rkey rxe_opcode m pkt

  unfoldable pub pkt_set : ExtField → Bytes → PktInfo → ℕ → Bytes
  pkt_set rdeth_een_field m pkt v = pkt_rdeth_set_een rxe_opcode m pkt v
  pkt_set deth_qkey_field m pkt v = pkt_deth_set_qkey rxe_opcode m pkt v
  pkt_set deth_sqp_field m pkt v = pkt_deth_set_sqp rxe_opcode m pkt v
  pkt_set reth_va_field m pkt v = pkt_reth_set_va rxe_opcode m pkt v
  pkt_set reth_rkey_field m pkt v = pkt_reth_set_rkey rxe_opcode m pkt v
  pkt_set reth_len_field m pkt v = pkt_reth_set_len rxe_opcode m pkt v
  pkt_set atmeth_va_field m pkt v = pkt_atmeth_set_va rxe_opcode m pkt v
  pkt_set atmeth_rkey_field m pkt v = pkt_atmeth_set_rkey rxe_opcode m pkt v
  pkt_set atmeth_swap_add_field m pkt v = pkt_atmeth_set_swap_add rxe_opcode m pkt v
  pkt_set atmeth_comp_field m pkt v = pkt_atmeth_set_comp rxe_opcode m pkt v
  pkt_set aeth_syn_field m pkt v = pkt_aeth_set_syn rxe_opcode m pkt v
  pkt_set aeth_msn_field m pkt v = pkt_aeth_set_msn rxe_opcode m pkt v
  pkt_set atmack_orig_field m pkt v = pkt_atmack_set_orig rxe_opcode m pkt v
  pkt_set immdt_imm_field m pkt v = pkt_immdt_set_imm rxe_opcode m pkt v
  pkt_set ieth_rkey_field m pkt v = pkt_ieth_set_rkey rxe_opcode m pkt v
