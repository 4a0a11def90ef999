-- ===== src/Bth/Assign.antt =====
-- The header as a record of the values of its fields, and what each setter does to it.
use libconntrack_cm.Base.{ℕ, ◌%◌, ◌^◌, ◌<◌, ◌≡◌, refl, true, ◌-◌, Bool, arith, ◌∙◌}
use libconntrack_cm.Packet.Memory.{swap32}
use libconntrack_cm.Packet.Network.{swap16_twice}
use libconntrack_cm.Bth.{
  Bth, bth_opcode, bth_set_opcode, bth_se, bth_set_se, bth_mig, bth_set_mig, bth_pad, bth_set_pad,
  bth_tver, bth_set_tver, bth_pkey, bth_set_pkey, bth_qpn, bth_set_qpn, bth_fecn, bth_set_fecn,
  bth_becn, bth_set_becn, bth_resv6a, bth_set_resv6a, bth_ack, bth_set_ack, bth_set_resv7, bth_psn,
  bth_set_psn,
}
use libconntrack_cm.Bth.Flags.{
  bth_set_se-reads, bth_set_mig-reads, bth_set_pad-reads, bth_set_tver-reads,
}
use libconntrack_cm.Bth.Qpn.{bth_set_qpn-reads, bth_set_fecn-reads, bth_set_becn-reads}
use libconntrack_cm.Bth.Psn.{bth_set_psn-reads, bth_set_psn-low}
use libconntrack_cm.Bth.Ack.{bth_set_ack-reads, bth_set_resv7-clears}

pub record BthFields : Type 0 where
  pub opcode : ℕ
  pub se : Bool
  pub mig : Bool
  pub pad : ℕ
  pub tver : ℕ
  pub pkey : ℕ
  pub fecn : Bool
  pub becn : Bool
  pub resv6a : ℕ
  pub qpn : ℕ
  pub ack : Bool
  pub resv7 : ℕ
  pub psn : ℕ

-- The reserved bits beside the acknowledge request have no reader in the source.
unfoldable pub decode_bth : Bth → BthFields
decode_bth b = record {
  opcode = bth_opcode b;
  se = bth_se b;
  mig = bth_mig b;
  pad = bth_pad b;
  tver = bth_tver b;
  pkey = bth_pkey b;
  fecn = bth_fecn b;
  becn = bth_becn b;
  resv6a = bth_resv6a b;
  qpn = bth_qpn b;
  ack = bth_ack b;
  resv7 = b.apsn % 2 ^ 7;
  psn = bth_psn b;
}

-- The words of a header are a byte, a byte, and three words of 16, 32 and 32 bits.
pub record IsHeader (b : Bth) : Type 0 where
  pub flags : b.flags < 2 ^ 8
  pub qpn : b.qpn < 2 ^ 32
  pub apsn : b.apsn < 2 ^ 32

-- What a setter of one word leaves alone.
module _ (b c : Bth) (opcode : c.opcode ≡ b.opcode) (pkey : c.pkey ≡ b.pkey) where
  decode_bth-flags :
      c.qpn ≡ b.qpn
      → c.apsn ≡ b.apsn
      → decode_bth c ≡ record (decode_bth b) {
        se = bth_se c;
        mig = bth_mig c;
        pad = bth_pad c;
        tver = bth_tver c;
      }
  unfolding decode_bth bth_opcode bth_pkey bth_fecn bth_becn bth_resv6a bth_qpn bth_ack bth_psn
  decode_bth-flags qpn apsn = ground arith

  decode_bth-qpn :
      c.flags ≡ b.flags
      → c.apsn ≡ b.apsn
      → decode_bth c ≡ record (decode_bth b) {
        fecn = bth_fecn c;
        becn = bth_becn c;
        resv6a = bth_resv6a c;
        qpn = bth_qpn c;
      }
  unfolding decode_bth bth_opcode bth_pkey bth_se bth_mig bth_pad bth_tver bth_ack bth_psn
  decode_bth-qpn flags apsn = ground arith

  decode_bth-apsn :
      c.flags ≡ b.flags
      → c.qpn ≡ b.qpn
      → decode_bth c
        ≡ record (decode_bth b) { ack = bth_ack c; resv7 = c.apsn % 2 ^ 7; psn = bth_psn c }
  unfolding decode_bth bth_opcode bth_pkey bth_se bth_mig bth_pad bth_tver bth_fecn bth_becn
      bth_resv6a bth_qpn
  decode_bth-apsn flags qpn = ground arith

module _ (b : Bth) (h : IsHeader b) where
  bth_set_se-assigns : (v : Bool) → decode_bth (bth_set_se b v) ≡ record (decode_bth b) { se = v }
  unfolding bth_set_se
  bth_set_se-assigns v =
      decode_bth-flags b (bth_set_se b v) (ground arith) (ground arith) (ground arith)
        (ground arith)
      ∙ (unfold decode_bth in ground (arith, bth_set_se-reads b v h.flags))

  bth_set_mig-assigns :
      (v : Bool) → decode_bth (bth_set_mig b v) ≡ record (decode_bth b) { mig = v }
  unfolding bth_set_mig
  bth_set_mig-assigns v =
      decode_bth-flags b (bth_set_mig b v) (ground arith) (ground arith) (ground arith)
        (ground arith)
      ∙ (unfold decode_bth in ground (arith, bth_set_mig-reads b v h.flags))

  bth_set_pad-assigns :
      (v : ℕ) → decode_bth (bth_set_pad b v) ≡ record (decode_bth b) { pad = v % 4 }
  unfolding bth_set_pad
  bth_set_pad-assigns v =
      decode_bth-flags b (bth_set_pad b v) (ground arith) (ground arith) (ground arith)
        (ground arith)
      ∙ (unfold decode_bth in ground (arith, bth_set_pad-reads b v h.flags))

  bth_set_tver-assigns :
      (v : ℕ) → decode_bth (bth_set_tver b v) ≡ record (decode_bth b) { tver = v % 16 }
  unfolding bth_set_tver
  bth_set_tver-assigns v =
      decode_bth-flags b (bth_set_tver b v) (ground arith) (ground arith) (ground arith)
        (ground arith)
      ∙ (unfold decode_bth in ground (arith, bth_set_tver-reads b v h.flags))

  bth_set_fecn-assigns :
      (v : Bool) → decode_bth (bth_set_fecn b v) ≡ record (decode_bth b) { fecn = v }
  unfolding bth_set_fecn
  bth_set_fecn-assigns v =
      decode_bth-qpn b (bth_set_fecn b v) (ground arith) (ground arith) (ground arith)
        (ground arith)
      ∙ (unfold decode_bth in ground (arith, bth_set_fecn-reads b v h.qpn))

  bth_set_becn-assigns :
      (v : Bool) → decode_bth (bth_set_becn b v) ≡ record (decode_bth b) { becn = v }
  unfolding bth_set_becn
  bth_set_becn-assigns v =
      decode_bth-qpn b (bth_set_becn b v) (ground arith) (ground arith) (ground arith)
        (ground arith)
      ∙ (unfold decode_bth in ground (arith, bth_set_becn-reads b v h.qpn))

  bth_set_qpn-assigns :
      (v : ℕ) → decode_bth (bth_set_qpn b v) ≡ record (decode_bth b) { qpn = v % 2 ^ 24 }
  unfolding bth_set_qpn
  bth_set_qpn-assigns v =
      decode_bth-qpn b (bth_set_qpn b v) (ground arith) (ground arith) (ground arith) (ground arith)
      ∙ (unfold decode_bth in ground (arith, bth_set_qpn-reads b v))

  bth_set_ack-assigns :
      (v : Bool) → decode_bth (bth_set_ack b v) ≡ record (decode_bth b) { ack = v }
  unfolding bth_set_ack
  bth_set_ack-assigns v =
      decode_bth-apsn b (bth_set_ack b v) (ground arith) (ground arith) (ground arith)
        (ground arith)
      ∙ (unfold decode_bth in ground (arith, bth_set_ack-reads b v h.apsn))

  bth_set_psn-assigns :
      (v : ℕ) → decode_bth (bth_set_psn b v) ≡ record (decode_bth b) { psn = v % 2 ^ 24 }
  unfolding bth_set_psn
  bth_set_psn-assigns v =
      decode_bth-apsn b (bth_set_psn b v) (ground arith) (ground arith) (ground arith)
        (ground arith)
      ∙ (unfold decode_bth in ground (arith, bth_set_psn-reads b v, bth_set_psn-low b v))

  bth_set_resv7-assigns : decode_bth (bth_set_resv7 b) ≡ record (decode_bth b) { resv7 = 0 }
  unfolding bth_set_resv7
  bth_set_resv7-assigns =
      decode_bth-apsn b (bth_set_resv7 b) refl refl refl refl
      ∙ (unfold decode_bth in ground (arith, bth_set_resv7-clears b h.apsn))

  bth_set_opcode-assigns :
      (v : ℕ) → decode_bth (bth_set_opcode b v) ≡ record (decode_bth b) { opcode = v % 2 ^ 8 }
  unfolding decode_bth bth_set_opcode bth_opcode bth_se bth_mig bth_pad bth_tver bth_pkey bth_fecn
      bth_becn bth_resv6a bth_qpn bth_ack bth_psn
  bth_set_opcode-assigns v = refl

  bth_set_pkey-assigns :
      (v : ℕ) → decode_bth (bth_set_pkey b v) ≡ record (decode_bth b) { pkey = v % 2 ^ 16 }
  unfolding decode_bth bth_set_pkey bth_opcode bth_se bth_mig bth_pad bth_tver bth_pkey bth_fecn
      bth_becn bth_resv6a bth_qpn bth_ack bth_psn
  bth_set_pkey-assigns v = rw (swap16_twice v) refl

  -- On a header whose words have their widths, each setter but `bth_set_resv6a`, read through the header as a
  -- record of the values of its fields, assigns its own field, cut to the field's width, and no other field of
  -- the header; `bth_set_resv7` assigns 0.
  pub bth_set-assigns :
      (v : Bool) (n : ℕ)
      → ((decode_bth (bth_set_opcode b n) ≡ record (decode_bth b) { opcode = n % 2 ^ 8 })
          × (decode_bth (bth_set_se b v) ≡ record (decode_bth b) { se = v })
          × (decode_bth (bth_set_mig b v) ≡ record (decode_bth b) { mig = v })
          × (decode_bth (bth_set_pad b n) ≡ record (decode_bth b) { pad = n % 4 })
          × (decode_bth (bth_set_tver b n) ≡ record (decode_bth b) { tver = n % 16 })
          × (decode_bth (bth_set_pkey b n) ≡ record (decode_bth b) { pkey = n % 2 ^ 16 }))
        × ((decode_bth (bth_set_fecn b v) ≡ record (decode_bth b) { fecn = v })
            × (decode_bth (bth_set_becn b v) ≡ record (decode_bth b) { becn = v })
            × (decode_bth (bth_set_qpn b n) ≡ record (decode_bth b) { qpn = n % 2 ^ 24 }))
        × ((decode_bth (bth_set_ack b v) ≡ record (decode_bth b) { ack = v })
            × (decode_bth (bth_set_resv7 b) ≡ record (decode_bth b) { resv7 = 0 })
            × (decode_bth (bth_set_psn b n) ≡ record (decode_bth b) { psn = n % 2 ^ 24 }))
  bth_set-assigns v n = (
    (
      bth_set_opcode-assigns n,
      bth_set_se-assigns v,
      bth_set_mig-assigns v,
      bth_set_pad-assigns n,
      bth_set_tver-assigns n,
      bth_set_pkey-assigns n,
    ),
    (bth_set_fecn-assigns v, bth_set_becn-assigns v, bth_set_qpn-assigns n),
    (bth_set_ack-assigns v, bth_set_resv7-assigns, bth_set_psn-assigns n),
  )

-- The setter of the reserved bits clears them and overwrites the rest of their word with ones.
pub bth_set_resv6a-decode :
    (b : Bth)
    → decode_bth (bth_set_resv6a b)
      ≡ record (decode_bth b) { fecn = true; becn = true; resv6a = 0; qpn = 2 ^ 24 - 1 }
unfolding decode_bth bth_set_resv6a bth_opcode bth_se bth_mig bth_pad bth_tver bth_pkey bth_fecn
    bth_becn bth_resv6a bth_qpn bth_ack bth_psn swap32
bth_set_resv6a-decode b = refl
