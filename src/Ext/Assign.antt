-- ===== src/Ext/Assign.antt =====
-- The laws of all the setters of the extended transport headers together.
use libconntrack_cm.Base.{ℕ, ◌%◌, ◌^◌, ◌≡◌}
use libconntrack_cm.Packet.Memory.{Bytes}
use libconntrack_cm.Ext.Headers.{
  rdeth_een, rdeth_set_een, deth_set_qkey, deth_set_sqp, reth_set_va, reth_set_rkey, reth_set_len,
  atmeth_set_va, atmeth_set_rkey, atmeth_set_swap_add, atmeth_set_comp, aeth_set_syn, aeth_set_msn,
  atmack_orig, atmack_set_orig, immdt_imm, immdt_set_imm, ieth_rkey, ieth_set_rkey,
}
use libconntrack_cm.Ext.Decode.{
  decode_deth, decode_reth, decode_atmeth, deth_set-assigns, reth_set-assigns, atmeth_set-assigns,
  single_set-reads,
}
use libconntrack_cm.Ext.Ack.{decode_aeth, aeth_set-assigns}

-- Each setter of an extended transport header, read through the header as a record of numbers in CPU order,
-- assigns its own field, cut to the field's width, and no other field of the header. The headers of one field read
-- back what was written, cut in the same way.
pub ext_set-assigns :
    (m : Bytes) (a v : ℕ)
    → ((decode_deth (deth_set_qkey m a v) a ≡ record (decode_deth m a) { qkey = v % 2 ^ 32 })
        × (decode_deth (deth_set_sqp m a v) a ≡ record (decode_deth m a) { sqp = v % 2 ^ 24 }))
      × ((decode_reth (reth_set_va m a v) a ≡ record (decode_reth m a) { va = v % 2 ^ 64 })
          × (decode_reth (reth_set_rkey m a v) a ≡ record (decode_reth m a) { rkey = v % 2 ^ 32 })
          × (decode_reth (reth_set_len m a v) a ≡ record (decode_reth m a) { len = v % 2 ^ 32 }))
      × ((decode_atmeth (atmeth_set_va m a v) a ≡ record (decode_atmeth m a) { va = v % 2 ^ 64 })
          × (decode_atmeth (atmeth_set_rkey m a v) a
              ≡ record (decode_atmeth m a) { rkey = v % 2 ^ 32 })
          × (decode_atmeth (atmeth_set_swap_add m a v) a
              ≡ record (decode_atmeth m a) { swap_add = v % 2 ^ 64 })
          × (decode_atmeth (atmeth_set_comp m a v) a
              ≡ record (decode_atmeth m a) { comp = v % 2 ^ 64 }))
      × ((decode_aeth (aeth_set_syn m a v) a ≡ record (decode_aeth m a) { syn = v % 2 ^ 8 })
          × (decode_aeth (aeth_set_msn m a v) a ≡ record (decode_aeth m a) { msn = v % 2 ^ 24 }))
      × ((rdeth_een (rdeth_set_een m a v) a ≡ v % 2 ^ 24)
          × (ieth_rkey (ieth_set_rkey m a v) a ≡ v % 2 ^ 32)
          × (atmack_orig (atmack_set_orig m a v) a ≡ v % 2 ^ 64)
          × (immdt_imm (immdt_set_imm m a v) a ≡ v % 2 ^ 32))
ext_set-assigns m a v = (
  deth_set-assigns m a v,
  reth_set-assigns m a v,
  atmeth_set-assigns m a v,
  aeth_set-assigns m a v,
  single_set-reads m a v,
)
