-- ===== src/Ext/Frame.antt =====
-- A setter of an extended transport header changes the bytes of its header alone, and a getter reads no other,
-- so the headers of a packet are independent when the table places them apart.
use libconntrack_cm.Base.{
  ℕ, ◌+◌, ◌*◌, ◌/◌, ◌^◌, ◌<◌, ◌≤◌, ◌⊎◌, inl, ◌≡◌, refl, ap, arith, bit_and, bit_or,
}
use libconntrack_cm.Packet.Memory.{Bytes, load16, store32-outside}
use libconntrack_cm.Packet.Network.{
  Agrees, read_be32, load32-Agrees, read_be32-Agrees, read_be64-Agrees, write_be32-outside,
  write_be64-outside,
}
use libconntrack_cm.Bth.{load_bth, not32}
use libconntrack_cm.Ext.{OpcodeInfo, PktInfo, hdr_addr, bth_addr, rxe_bth_bytes}
use libconntrack_cm.Ext.Headers.{
  rdeth_een, rdeth_set_een, deth_qkey, deth_set_qkey, deth_sqp, deth_set_sqp, reth_va, reth_set_va,
  reth_rkey, reth_set_rkey, reth_len, reth_set_len, atmeth_va, atmeth_set_va, atmeth_rkey,
  atmeth_set_rkey, atmeth_swap_add, atmeth_set_swap_add, atmeth_comp, atmeth_set_comp, aeth_syn,
  aeth_set_syn, aeth_msn, aeth_set_msn, atmack_orig, atmack_set_orig, immdt_imm, immdt_set_imm,
  ieth_rkey, ieth_set_rkey, aeth_syn_mask, aeth_msn_mask,
}
use libconntrack_cm.Ext.Wrappers.{
  pkt_rdeth_een, pkt_rdeth_set_een, pkt_deth_qkey, pkt_deth_set_qkey, pkt_deth_sqp,
  pkt_deth_set_sqp, pkt_reth_va, pkt_reth_set_va, pkt_reth_rkey, pkt_reth_set_rkey, pkt_reth_len,
  pkt_reth_set_len, pkt_atmeth_va, pkt_atmeth_set_va, pkt_atmeth_rkey, pkt_atmeth_set_rkey,
  pkt_atmeth_swap_add, pkt_atmeth_set_swap_add, pkt_atmeth_comp, pkt_atmeth_set_comp, pkt_aeth_syn,
  pkt_aeth_set_syn, pkt_aeth_msn, pkt_aeth_set_msn, pkt_atmack_orig, pkt_atmack_set_orig,
  pkt_immdt_imm, pkt_immdt_set_imm, pkt_ieth_rkey, pkt_ieth_set_rkey,
}
use libconntrack_cm.Ext.Field.{
  ExtField, rdeth_een_field, deth_qkey_field, deth_sqp_field, reth_va_field, reth_rkey_field,
  reth_len_field, atmeth_va_field, atmeth_rkey_field, atmeth_swap_add_field, atmeth_comp_field,
  aeth_syn_field, aeth_msn_field, atmack_orig_field, immdt_imm_field, ieth_rkey_field, hdr_type,
  hdr_bytes, ext_get, ext_set, pkt_get, pkt_set,
}

ext_set-outside :
    (f : ExtField) (m : Bytes) (a v i : ℕ) → i < a ⊎ a + hdr_bytes f ≤ i → ext_set f m a v i ≡ m i
unfolding ext_set hdr_bytes rdeth_set_een deth_set_qkey deth_set_sqp reth_set_va reth_set_rkey
    reth_set_len atmeth_set_va atmeth_set_rkey atmeth_set_swap_add atmeth_set_comp aeth_set_syn
    aeth_set_msn atmack_set_orig immdt_set_imm ieth_set_rkey
ext_set-outside rdeth_een_field m a v i h =
    write_be32-outside m a (bit_and 0x00ff_ffff v) i (ground arith)
ext_set-outside deth_qkey_field m a v i h = write_be32-outside m a v i (ground arith)
ext_set-outside deth_sqp_field m a v i h =
    write_be32-outside m (a + 4) (bit_and 0x00ff_ffff v) i (ground arith)
ext_set-outside reth_va_field m a v i h = write_be64-outside m a v i (ground arith)
ext_set-outside reth_rkey_field m a v i h = write_be32-outside m (a + 8) v i (ground arith)
ext_set-outside reth_len_field m a v i h = write_be32-outside m (a + 12) v i (ground arith)
ext_set-outside atmeth_va_field m a v i h = write_be64-outside m a v i (ground arith)
ext_set-outside atmeth_rkey_field m a v i h = write_be32-outside m (a + 8) v i (ground arith)
ext_set-outside atmeth_swap_add_field m a v i h = write_be64-outside m (a + 12) v i (ground arith)
ext_set-outside atmeth_comp_field m a v i h = write_be64-outside m (a + 20) v i (ground arith)
ext_set-outside aeth_syn_field m a v i h =
    write_be32-outside m a
      (bit_or (bit_and aeth_syn_mask (v * 2 ^ 24)) (bit_and (not32 aeth_syn_mask) (read_be32 m a)))
      i (ground arith)
ext_set-outside aeth_msn_field m a v i h =
    write_be32-outside m a
      (bit_or (bit_and aeth_msn_mask v) (bit_and (not32 aeth_msn_mask) (read_be32 m a))) i
      (ground arith)
ext_set-outside atmack_orig_field m a v i h = write_be64-outside m a v i (ground arith)
ext_set-outside immdt_imm_field m a v i h = store32-outside m a v i (ground arith)
ext_set-outside ieth_rkey_field m a v i h = write_be32-outside m a v i (ground arith)

ext_get-Agrees :
    (f : ExtField) (m n : Bytes) (a : ℕ)
    → Agrees a (hdr_bytes f) m n
    → ext_get f m a ≡ ext_get f n a
unfolding ext_get hdr_bytes rdeth_een deth_qkey deth_sqp reth_va reth_rkey reth_len atmeth_va
    atmeth_rkey atmeth_swap_add atmeth_comp aeth_syn aeth_msn atmack_orig immdt_imm ieth_rkey
ext_get-Agrees rdeth_een_field m n a e =
    ap (bit_and 0x00ff_ffff) (read_be32-Agrees m n a (λ i l u. e i (omega arith) (omega arith)))
ext_get-Agrees deth_qkey_field m n a e =
    read_be32-Agrees m n a (λ i l u. e i (omega arith) (omega arith))
ext_get-Agrees deth_sqp_field m n a e =
    ap (bit_and 0x00ff_ffff)
      (read_be32-Agrees m n (a + 4) (λ i l u. e i (omega arith) (omega arith)))
ext_get-Agrees reth_va_field m n a e =
    read_be64-Agrees m n a (λ i l u. e i (omega arith) (omega arith))
ext_get-Agrees reth_rkey_field m n a e =
    read_be32-Agrees m n (a + 8) (λ i l u. e i (omega arith) (omega arith))
ext_get-Agrees reth_len_field m n a e =
    read_be32-Agrees m n (a + 12) (λ i l u. e i (omega arith) (omega arith))
ext_get-Agrees atmeth_va_field m n a e =
    read_be64-Agrees m n a (λ i l u. e i (omega arith) (omega arith))
ext_get-Agrees atmeth_rkey_field m n a e =
    read_be32-Agrees m n (a + 8) (λ i l u. e i (omega arith) (omega arith))
ext_get-Agrees atmeth_swap_add_field m n a e =
    read_be64-Agrees m n (a + 12) (λ i l u. e i (omega arith) (omega arith))
ext_get-Agrees atmeth_comp_field m n a e =
    read_be64-Agrees m n (a + 20) (λ i l u. e i (omega arith) (omega arith))
ext_get-Agrees aeth_syn_field m n a e =
    ap (λ w. bit_and aeth_syn_mask w / 2 ^ 24)
      (read_be32-Agrees m n a (λ i l u. e i (omega arith) (omega arith)))
ext_get-Agrees aeth_msn_field m n a e =
    ap (bit_and aeth_msn_mask) (read_be32-Agrees m n a (λ i l u. e i (omega arith) (omega arith)))
ext_get-Agrees atmack_orig_field m n a e =
    read_be64-Agrees m n a (λ i l u. e i (omega arith) (omega arith))
ext_get-Agrees immdt_imm_field m n a e =
    load32-Agrees m n a (λ i l u. e i (omega arith) (omega arith))
ext_get-Agrees ieth_rkey_field m n a e =
    read_be32-Agrees m n a (λ i l u. e i (omega arith) (omega arith))

load_bth-Agrees : (m n : Bytes) (a : ℕ) → Agrees a 12 m n → load_bth m a ≡ load_bth n a
unfolding load_bth load16
load_bth-Agrees m n a e =
    rw
      (
        e a (omega arith) (omega arith),
        e (a + 1) (omega arith) (omega arith),
        e (a + 2) (omega arith) (omega arith),
        e (a + 2 + 1) (omega arith) (omega arith),
        load32-Agrees m n (a + 4) (λ i l u. e i (omega arith) (omega arith)),
        load32-Agrees m n (a + 8) (λ i l u. e i (omega arith) (omega arith)),
      )
      refl

module _ (rxe_opcode : ℕ → OpcodeInfo) where
  -- The accessors of a packet are those of its header.
  pkt_set-ext_set :
      (f : ExtField) (m : Bytes) (pkt : PktInfo) (v : ℕ)
      → pkt_set rxe_opcode f m pkt v ≡ ext_set f m (hdr_addr rxe_opcode pkt (hdr_type f)) v
  unfolding pkt_set ext_set hdr_type pkt_rdeth_set_een pkt_deth_set_qkey pkt_deth_set_sqp
      pkt_reth_set_va pkt_reth_set_rkey pkt_reth_set_len pkt_atmeth_set_va pkt_atmeth_set_rkey
      pkt_atmeth_set_swap_add pkt_atmeth_set_comp pkt_aeth_set_syn pkt_aeth_set_msn
      pkt_atmack_set_orig pkt_immdt_set_imm pkt_ieth_set_rkey
  pkt_set-ext_set rdeth_een_field m pkt v = refl
  pkt_set-ext_set deth_qkey_field m pkt v = refl
  pkt_set-ext_set deth_sqp_field m pkt v = refl
  pkt_set-ext_set reth_va_field m pkt v = refl
  pkt_set-ext_set reth_rkey_field m pkt v = refl
  pkt_set-ext_set reth_len_field m pkt v = refl
  pkt_set-ext_set atmeth_va_field m pkt v = refl
  pkt_set-ext_set atmeth_rkey_field m pkt v = refl
  pkt_set-ext_set atmeth_swap_add_field m pkt v = refl
  pkt_set-ext_set atmeth_comp_field m pkt v = refl
  pkt_set-ext_set aeth_syn_field m pkt v = refl
  pkt_set-ext_set aeth_msn_field m pkt v = refl
  pkt_set-ext_set atmack_orig_field m pkt v = refl
  pkt_set-ext_set immdt_imm_field m pkt v = refl
  pkt_set-ext_set ieth_rkey_field m pkt v = refl

  pkt_get-ext_get :
      (f : ExtField) (m : Bytes) (pkt : PktInfo)
      → pkt_get rxe_opcode f m pkt ≡ ext_get f m (hdr_addr rxe_opcode pkt (hdr_type f))
  unfolding pkt_get ext_get hdr_type pkt_rdeth_een pkt_deth_qkey pkt_deth_sqp pkt_reth_va
      pkt_reth_rkey pkt_reth_len pkt_atmeth_va pkt_atmeth_rkey pkt_atmeth_swap_add pkt_atmeth_comp
      pkt_aeth_syn pkt_aeth_msn pkt_atmack_orig pkt_immdt_imm pkt_ieth_rkey
  pkt_get-ext_get rdeth_een_field m pkt = refl
  pkt_get-ext_get deth_qkey_field m pkt = refl
  pkt_get-ext_get deth_sqp_field m pkt = refl
  pkt_get-ext_get reth_va_field m pkt = refl
  pkt_get-ext_get reth_rkey_field m pkt = refl
  pkt_get-ext_get reth_len_field m pkt = refl
  pkt_get-ext_get atmeth_va_field m pkt = refl
  pkt_get-ext_get atmeth_rkey_field m pkt = refl
  pkt_get-ext_get atmeth_swap_add_field m pkt = refl
  pkt_get-ext_get atmeth_comp_field m pkt = refl
  pkt_get-ext_get aeth_syn_field m pkt = refl
  pkt_get-ext_get aeth_msn_field m pkt = refl
  pkt_get-ext_get atmack_orig_field m pkt = refl
  pkt_get-ext_get immdt_imm_field m pkt = refl
  pkt_get-ext_get ieth_rkey_field m pkt = refl

  -- A setter leaves the base transport header as it is, when the header that it writes stands after it.
  pub pkt_set-keeps_bth :
      (f : ExtField) (m : Bytes) (pkt : PktInfo) (v : ℕ)
      → rxe_bth_bytes ≤ (rxe_opcode pkt.opcode).offset (hdr_type f)
      → load_bth (pkt_set rxe_opcode f m pkt v) (bth_addr pkt) ≡ load_bth m (bth_addr pkt)
  pkt_set-keeps_bth f m pkt v h = rw (pkt_set-ext_set f m pkt v) (
      load_bth-Agrees (ext_set f m (hdr_addr rxe_opcode pkt (hdr_type f)) v) m (bth_addr pkt)
        (λ i l u.
          ext_set-outside f m (hdr_addr rxe_opcode pkt (hdr_type f)) v i (inl (omega arith))))

  -- A getter does not see a setter of a header that the table places before or after its own.
  pub pkt_get-pkt_set_apart :
      (f g : ExtField) (m : Bytes) (pkt : PktInfo) (v : ℕ)
      → (let at = (rxe_opcode pkt.opcode).offset in
          at (hdr_type f) + hdr_bytes f ≤ at (hdr_type g)
          ⊎ at (hdr_type g) + hdr_bytes g ≤ at (hdr_type f))
      → pkt_get rxe_opcode g (pkt_set rxe_opcode f m pkt v) pkt ≡ pkt_get rxe_opcode g m pkt
  pkt_get-pkt_set_apart f g m pkt v h =
      let a = hdr_addr rxe_opcode pkt (hdr_type f) in
      rw
        (
          pkt_set-ext_set f m pkt v,
          pkt_get-ext_get g (ext_set f m a v) pkt,
          pkt_get-ext_get g m pkt,
        )
        (ext_get-Agrees g (ext_set f m a v) m (hdr_addr rxe_opcode pkt (hdr_type g))
          (λ i l u. ext_set-outside f m a v i (ground arith)))
