-- ===== src/Bth/Init.antt =====
-- `bth_init` writes every field of the header.
use libconntrack_cm.Base.{
  ℕ, ◌+◌, ◌*◌, ◌%◌, ◌^◌, ◌<◌, ◌≡◌, refl, Bool, true, false, bit_and, bit_or, arith, if◌then◌else◌,
  ◌∙◌, Bool-cases, inl, inr,
}
use libconntrack_cm.Base.Bits.{all_below, all_below_sound, bit_and_comm}
use libconntrack_cm.Packet.Memory.{swap32, swap32-swap32, swap16-swap16}
use libconntrack_cm.Bth.{
  bth_opcode, bth_se, bth_mig, bth_pad, bth_tver, bth_pkey, bth_qpn, bth_fecn, bth_becn, bth_resv6a,
  bth_psn, bth_ack, bth_init,
}
use libconntrack_cm.Bth.Bits.{low24, low24_right, join24, swap32-high}
use libconntrack_cm.Bth.Qpn.{bth_fecn-low, bth_becn-low, bth_resv6a-low}
use libconntrack_cm.Bth.Psn.{bth_ack-low}
use libconntrack_cm.Bth.Flags.{byte_reads, pad_bits}

abbrev init_byte : Bool → Bool → ℕ → ℕ
init_byte se mig padded =
    let solicited = if se then bit_or padded 0x80 else padded in
    if mig then bit_or solicited 0x40 else solicited

init_table :
    (se mig : Bool) → all_below 4 (λ p. byte_reads (init_byte se mig (p * 2 ^ 4)) se mig p 0) ≡ true
unfolding all_below
init_table true true = refl
init_table true false = refl
init_table false true = refl
init_table false false = refl

module _ (opcode : ℕ) (se mig : Bool) (pad pkey qpn : ℕ) (ack_req : Bool) (psn : ℕ) where
  -- The flags byte of the new header.
  bth_init-flags :
      let b = bth_init opcode se mig pad pkey qpn ack_req psn in
      (bth_se b ≡ se) × (bth_mig b ≡ mig) × (bth_pad b ≡ pad % 4) × (bth_tver b ≡ 0)
  unfolding bth_init bth_se bth_mig bth_pad bth_tver
  bth_init-flags = ground (
    arith,
    bit_and_comm (pad * 2 ^ 4) 0x30,
    pad_bits pad,
    all_below_sound 4 (λ p. byte_reads (init_byte se mig (p * 2 ^ 4)) se mig p 0) (pad % 4)
        (init_table se mig),
  )

  bth_init-qpn :
      let b = bth_init opcode se mig pad pkey qpn ack_req psn in
      (bth_qpn b ≡ qpn % 2 ^ 24) × (swap32 b.qpn ≡ qpn % 2 ^ 24)
  unfolding bth_init bth_qpn
  bth_init-qpn =
      let word : swap32 (swap32 (bit_and qpn 0x00ff_ffff)) ≡ qpn % 2 ^ 24 =
        rw (low24_right qpn) (swap32-swap32 (qpn % 2 ^ 24) (omega arith)) in
      (ground (arith, word, low24 (qpn % 2 ^ 24)), word)

  bth_init-apsn :
      swap32 (bth_init opcode se mig pad pkey qpn ack_req psn).apsn
      ≡ (if ack_req then 0x80 else 0) * 2 ^ 24 + psn % 2 ^ 24
  unfolding bth_init
  bth_init-apsn = elim (Bool-cases ack_req) [
    | inl e ↦
        rw (e, low24_right psn, join24 psn 0x80)
          (swap32-swap32 (0x80 * 2 ^ 24 + psn % 2 ^ 24) (omega arith))
    | inr e ↦ rw (e, low24_right psn) (swap32-swap32 (psn % 2 ^ 24) (omega arith) ∙ omega arith)
  ]

  bth_init-ack : bth_ack (bth_init opcode se mig pad pkey qpn ack_req psn) ≡ ack_req
  bth_init-ack =
      let b = bth_init opcode se mig pad pkey qpn ack_req psn in
      let low : b.apsn % 2 ^ 8 ≡ (if ack_req then 0x80 else 0) =
        ground (arith, bth_init-apsn, swap32-high b.apsn) in
      rw (bth_ack-low b, low) (ground arith)

  -- `bth_init` gives a header whose every field reads back: the numbers cut to their widths, the
  -- congestion bits, the reserved bits and the version zero.
  pub bth_init-reads :
      pkey < 2 ^ 16
      → let b = bth_init opcode se mig pad pkey qpn ack_req psn in
        ((bth_opcode b ≡ opcode % 2 ^ 8) × (bth_pkey b ≡ pkey))
        × ((bth_se b ≡ se) × (bth_mig b ≡ mig) × (bth_pad b ≡ pad % 4) × (bth_tver b ≡ 0))
        × ((bth_qpn b ≡ qpn % 2 ^ 24)
            × (bth_fecn b ≡ false)
            × (bth_becn b ≡ false)
            × (bth_resv6a b ≡ 0))
        × ((bth_psn b ≡ psn % 2 ^ 24) × (bth_ack b ≡ ack_req))
  bth_init-reads h =
      let b = bth_init opcode se mig pad pkey qpn ack_req psn in
      let low : b.qpn % 2 ^ 8 ≡ 0 = omega (arith, bth_init-qpn.1, swap32-high b.qpn) in
      (
        (unfold bth_opcode bth_init in refl, unfold bth_pkey bth_init in swap16-swap16 pkey h),
        bth_init-flags,
        (
          bth_init-qpn.0,
          rw (bth_fecn-low b, low) refl,
          rw (bth_becn-low b, low) refl,
          rw (bth_resv6a-low b, low) refl,
        ),
        (unfold bth_psn in ground (arith, bth_init-apsn, low24 (swap32 b.apsn)), bth_init-ack),
      )
