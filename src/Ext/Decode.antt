-- ===== src/Ext/Decode.antt =====
-- The extended transport headers as records of numbers in CPU order: each setter of src/rxe_hdr.h is an assignment
-- to one field of the record, cut to the field's width.
use libconntrack_cm.Base.{ℕ, ◌+◌, ◌%◌, ◌^◌, inl, inr, ◌≡◌, refl, arith, bit_and}
use libconntrack_cm.Packet.Memory.{Bytes}
use libconntrack_cm.Packet.Network.{
  read_be32, write_be32, read_be32-write_be32, read_be64-write_be64, read_be32-write_be32_apart,
  read_be32-write_be64_apart, read_be64-write_be32_apart, read_be64-write_be64_apart,
  load32-store32_cut,
}
use libconntrack_cm.Bth.Bits.{low24}
use libconntrack_cm.Ext.Headers.{
  reth_va, reth_set_va, reth_rkey, reth_set_rkey, reth_len, reth_set_len, atmeth_va, atmeth_set_va,
  atmeth_rkey, atmeth_set_rkey, atmeth_swap_add, atmeth_set_swap_add, atmeth_comp, atmeth_set_comp,
  deth_qkey, deth_set_qkey, deth_sqp, deth_set_sqp, rdeth_een, rdeth_set_een, atmack_orig,
  atmack_set_orig, immdt_imm, immdt_set_imm, ieth_rkey, ieth_set_rkey,
}

pub record Reth : Type 0 where
  pub va : ℕ
  pub rkey : ℕ
  pub len : ℕ

pub record Atmeth : Type 0 where
  pub va : ℕ
  pub rkey : ℕ
  pub swap_add : ℕ
  pub comp : ℕ

pub record Deth : Type 0 where
  pub qkey : ℕ
  pub sqp : ℕ

unfoldable pub decode_deth : Bytes → ℕ → Deth
decode_deth m a = record { qkey = deth_qkey m a; sqp = deth_sqp m a }

unfoldable pub decode_reth : Bytes → ℕ → Reth
decode_reth m a = record { va = reth_va m a; rkey = reth_rkey m a; len = reth_len m a }

unfoldable pub decode_atmeth : Bytes → ℕ → Atmeth
decode_atmeth m a = record {
  va = atmeth_va m a;
  rkey = atmeth_rkey m a;
  swap_add = atmeth_swap_add m a;
  comp = atmeth_comp m a;
}

-- A number of 24 bits, written and read with the mask.
masked_word :
    (m : Bytes) (a v : ℕ)
    → bit_and 0x00ff_ffff (read_be32 (write_be32 m a (bit_and 0x00ff_ffff v)) a) ≡ v % 2 ^ 24
masked_word m a v =
    rw (low24 v, read_be32-write_be32 m a (v % 2 ^ 24), low24 (v % 2 ^ 24 % 2 ^ 32)) (omega arith)

-- Each setter of a RETH assigns its own field of the header.
pub reth_set-assigns :
    (m : Bytes) (a v : ℕ)
    → (decode_reth (reth_set_va m a v) a ≡ record (decode_reth m a) { va = v % 2 ^ 64 })
      × (decode_reth (reth_set_rkey m a v) a ≡ record (decode_reth m a) { rkey = v % 2 ^ 32 })
      × (decode_reth (reth_set_len m a v) a ≡ record (decode_reth m a) { len = v % 2 ^ 32 })
unfolding decode_reth reth_va reth_rkey reth_len reth_set_va reth_set_rkey reth_set_len
reth_set-assigns m a v = (
  rw
      (
        read_be64-write_be64 m a v,
        read_be32-write_be64_apart m (a + 8) a v (inr (omega arith)),
        read_be32-write_be64_apart m (a + 12) a v (inr (omega arith)),
      )
      refl,
  rw
      (
        read_be32-write_be32 m (a + 8) v,
        read_be64-write_be32_apart m a (a + 8) v (inl (omega arith)),
        read_be32-write_be32_apart m (a + 12) (a + 8) v (inr (omega arith)),
      )
      refl,
  rw
      (
        read_be32-write_be32 m (a + 12) v,
        read_be64-write_be32_apart m a (a + 12) v (inl (omega arith)),
        read_be32-write_be32_apart m (a + 8) (a + 12) v (inl (omega arith)),
      )
      refl,
)

-- Each setter of an ATMETH assigns its own field of the header.
pub atmeth_set-assigns :
    (m : Bytes) (a v : ℕ)
    → (decode_atmeth (atmeth_set_va m a v) a ≡ record (decode_atmeth m a) { va = v % 2 ^ 64 })
      × (decode_atmeth (atmeth_set_rkey m a v) a ≡ record (decode_atmeth m a) { rkey = v % 2 ^ 32 })
      × (decode_atmeth (atmeth_set_swap_add m a v) a
          ≡ record (decode_atmeth m a) { swap_add = v % 2 ^ 64 })
      × (decode_atmeth (atmeth_set_comp m a v) a ≡ record (decode_atmeth m a) { comp = v % 2 ^ 64 })
unfolding decode_atmeth atmeth_va atmeth_rkey atmeth_swap_add atmeth_comp atmeth_set_va
    atmeth_set_rkey atmeth_set_swap_add atmeth_set_comp
atmeth_set-assigns m a v = (
  rw
      (
        read_be64-write_be64 m a v,
        read_be32-write_be64_apart m (a + 8) a v (inr (omega arith)),
        read_be64-write_be64_apart m (a + 12) a v (inr (omega arith)),
        read_be64-write_be64_apart m (a + 20) a v (inr (omega arith)),
      )
      refl,
  rw
      (
        read_be32-write_be32 m (a + 8) v,
        read_be64-write_be32_apart m a (a + 8) v (inl (omega arith)),
        read_be64-write_be32_apart m (a + 12) (a + 8) v (inr (omega arith)),
        read_be64-write_be32_apart m (a + 20) (a + 8) v (inr (omega arith)),
      )
      refl,
  rw
      (
        read_be64-write_be64 m (a + 12) v,
        read_be64-write_be64_apart m a (a + 12) v (inl (omega arith)),
        read_be32-write_be64_apart m (a + 8) (a + 12) v (inl (omega arith)),
        read_be64-write_be64_apart m (a + 20) (a + 12) v (inr (omega arith)),
      )
      refl,
  rw
      (
        read_be64-write_be64 m (a + 20) v,
        read_be64-write_be64_apart m a (a + 20) v (inl (omega arith)),
        read_be32-write_be64_apart m (a + 8) (a + 20) v (inl (omega arith)),
        read_be64-write_be64_apart m (a + 12) (a + 20) v (inl (omega arith)),
      )
      refl,
)

-- Each setter of a DETH assigns its own field, the source QP cut to 24 bits.
pub deth_set-assigns :
    (m : Bytes) (a v : ℕ)
    → (decode_deth (deth_set_qkey m a v) a ≡ record (decode_deth m a) { qkey = v % 2 ^ 32 })
      × (decode_deth (deth_set_sqp m a v) a ≡ record (decode_deth m a) { sqp = v % 2 ^ 24 })
unfolding decode_deth deth_qkey deth_sqp deth_set_qkey deth_set_sqp
deth_set-assigns m a v = (
  rw (read_be32-write_be32 m a v, read_be32-write_be32_apart m (a + 4) a v (inr (omega arith)))
      refl,
  rw
      (
        read_be32-write_be32_apart m a (a + 4) (bit_and 0x00ff_ffff v) (inl (omega arith)),
        masked_word m (a + 4) v,
      )
      refl,
)

-- The headers of one field: what is written is read, cut to 24 bits in an RDETH and to the word elsewhere.
pub single_set-reads :
    (m : Bytes) (a v : ℕ)
    → (rdeth_een (rdeth_set_een m a v) a ≡ v % 2 ^ 24)
      × (ieth_rkey (ieth_set_rkey m a v) a ≡ v % 2 ^ 32)
      × (atmack_orig (atmack_set_orig m a v) a ≡ v % 2 ^ 64)
      × (immdt_imm (immdt_set_imm m a v) a ≡ v % 2 ^ 32)
unfolding rdeth_een rdeth_set_een ieth_rkey ieth_set_rkey atmack_orig atmack_set_orig immdt_imm
    immdt_set_imm
single_set-reads m a v = (
  masked_word m a v,
  read_be32-write_be32 m a v,
  read_be64-write_be64 m a v,
  load32-store32_cut m a v,
)
