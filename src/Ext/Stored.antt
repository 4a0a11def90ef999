-- ===== src/Ext/Stored.antt =====
-- The setters of the base transport header that take a packet: which field of the header in the packet's bytes they
-- assign, and that they write nothing else.
use libconntrack_cm.Base.{
  ℕ, ◌+◌, ◌^◌, ◌<◌, ◌≤◌, ◌⊎◌, ◌≡◌, ◌∙◌, ap, ◌-◌, ◌%◌, arith, refl, true, Bool,
}
use libconntrack_cm.Packet.Memory.{Bytes, IsBytes, load16, load32}
use libconntrack_cm.Bth.{
  Bth, IsBth, load_bth, store_bth, bth_set_opcode, bth_set_se, bth_set_mig, bth_set_pad,
  bth_set_tver, bth_set_pkey, bth_set_qpn, bth_set_fecn, bth_set_becn, bth_set_ack, bth_set_psn,
  bth_set_resv6a, bth_set_resv7,
}
use libconntrack_cm.Ext.Width.{
  load_bth-IsBth, bth_set_opcode-IsBth, bth_set_se-IsBth, bth_set_mig-IsBth, bth_set_pad-IsBth,
  bth_set_tver-IsBth, bth_set_pkey-IsBth, bth_set_qpn-IsBth, bth_set_fecn-IsBth, bth_set_becn-IsBth,
  bth_set_ack-IsBth, bth_set_resv6a-IsBth, bth_set_resv7-IsBth, bth_set_psn-IsBth,
}
use libconntrack_cm.Bth.Assign.{
  BthFields, decode_bth, IsHeader, bth_set-assigns, bth_set_resv6a-decode,
}
use libconntrack_cm.Ext.{PktInfo, bth_addr}
use libconntrack_cm.Ext.BthWrappers.{
  pkt_bth_set_opcode, pkt_bth_set_se, pkt_bth_set_mig, pkt_bth_set_pad, pkt_bth_set_tver,
  pkt_bth_set_pkey, pkt_bth_set_qpn, pkt_bth_set_fecn, pkt_bth_set_becn, pkt_bth_set_ack,
  pkt_bth_set_psn, pkt_bth_set_resv6a, pkt_bth_set_resv7,
}

module _ (m : Bytes) (a : ℕ) (b : Bth) (wide : IsBth b) where
  stored_opcode : store_bth m a b a ≡ b.opcode
  unfolding store_bth
  stored_opcode = ground (arith, wide.opcode)

  stored_flags : store_bth m a b (a + 1) ≡ b.flags
  unfolding store_bth
  stored_flags = ground (arith, wide.flags)

  stored_pkey : load16 (store_bth m a b) (a + 2) ≡ b.pkey
  unfolding store_bth load16
  stored_pkey = ground (arith, wide.pkey)

  stored_qpn : load32 (store_bth m a b) (a + 4) ≡ b.qpn
  unfolding store_bth load32
  stored_qpn = ground (arith, wide.qpn)

  stored_apsn : load32 (store_bth m a b) (a + 8) ≡ b.apsn
  unfolding store_bth load32
  stored_apsn = ground (arith, wide.apsn)

  load_bth-store_bth : load_bth (store_bth m a b) a ≡ b
  unfolding load_bth
  load_bth-store_bth = rw (stored_opcode, stored_flags, stored_pkey, stored_qpn, stored_apsn) refl

  store_bth-outside : (i : ℕ) → i < a ⊎ a + 12 ≤ i → store_bth m a b i ≡ m i
  unfolding store_bth
  store_bth-outside i h = ground (arith, h)

-- In the memory `m'` the header at `a` decodes to those values, and the byte at `i` is that of `m`.
abbrev pub IsAssigned : Bytes → ℕ → ℕ → Bytes → BthFields → Type 0
IsAssigned m a i m' fields = (decode_bth (load_bth m' a) ≡ fields) × (m' i ≡ m i)

store_bth-IsAssigned :
    (m : Bytes) (a i : ℕ) (b : Bth) (fields : BthFields)
    → i < a ⊎ a + 12 ≤ i
    → IsBth b
    → decode_bth b ≡ fields
    → IsAssigned m a i (store_bth m a b) fields
store_bth-IsAssigned m a i b fields outside wide e =
    (ap decode_bth (load_bth-store_bth m a b wide) ∙ e, store_bth-outside m a b wide i outside)

-- On a memory of bytes: each setter of a packet but that of the reserved bits beside the QP
-- number, read through the header in the packet's bytes, assigns its own field, cut to the field's width, and no
-- other field of the header; that one clears its bits, and sets the congestion bits and the number to ones. No
-- setter changes a byte outside the 12 bytes of the header.
pub pkt_bth_set-assigns :
    (m : Bytes) (pkt : PktInfo) (n i : ℕ) (v : Bool)
    → IsBytes m
    → i < bth_addr pkt ⊎ bth_addr pkt + 12 ≤ i
    → IsAssigned m
        (bth_addr pkt)
        i
        (pkt_bth_set_opcode m pkt n)
        (record (decode_bth (load_bth m (bth_addr pkt))) { opcode = n % 2 ^ 8 })
      × IsAssigned m
          (bth_addr pkt)
          i
          (pkt_bth_set_se m pkt v)
          (record (decode_bth (load_bth m (bth_addr pkt))) { se = v })
      × IsAssigned m
          (bth_addr pkt)
          i
          (pkt_bth_set_mig m pkt v)
          (record (decode_bth (load_bth m (bth_addr pkt))) { mig = v })
      × IsAssigned m
          (bth_addr pkt)
          i
          (pkt_bth_set_pad m pkt n)
          (record (decode_bth (load_bth m (bth_addr pkt))) { pad = n % 4 })
      × IsAssigned m
          (bth_addr pkt)
          i
          (pkt_bth_set_tver m pkt n)
          (record (decode_bth (load_bth m (bth_addr pkt))) { tver = n % 16 })
      × IsAssigned m
          (bth_addr pkt)
          i
          (pkt_bth_set_pkey m pkt n)
          (record (decode_bth (load_bth m (bth_addr pkt))) { pkey = n % 2 ^ 16 })
      × IsAssigned m
          (bth_addr pkt)
          i
          (pkt_bth_set_fecn m pkt v)
          (record (decode_bth (load_bth m (bth_addr pkt))) { fecn = v })
      × IsAssigned m
          (bth_addr pkt)
          i
          (pkt_bth_set_becn m pkt v)
          (record (decode_bth (load_bth m (bth_addr pkt))) { becn = v })
      × IsAssigned m
          (bth_addr pkt)
          i
          (pkt_bth_set_qpn m pkt n)
          (record (decode_bth (load_bth m (bth_addr pkt))) { qpn = n % 2 ^ 24 })
      × IsAssigned m
          (bth_addr pkt)
          i
          (pkt_bth_set_ack m pkt v)
          (record (decode_bth (load_bth m (bth_addr pkt))) { ack = v })
      × IsAssigned m
          (bth_addr pkt)
          i
          (pkt_bth_set_resv7 m pkt)
          (record (decode_bth (load_bth m (bth_addr pkt))) { resv7 = 0 })
      × IsAssigned m
          (bth_addr pkt)
          i
          (pkt_bth_set_psn m pkt n)
          (record (decode_bth (load_bth m (bth_addr pkt))) { psn = n % 2 ^ 24 })
      × IsAssigned m
          (bth_addr pkt)
          i
          (pkt_bth_set_resv6a m pkt)
          (record (decode_bth (load_bth m (bth_addr pkt))) {
            fecn = true;
            becn = true;
            resv6a = 0;
            qpn = 2 ^ 24 - 1;
          })
unfolding pkt_bth_set_opcode pkt_bth_set_se pkt_bth_set_mig pkt_bth_set_pad pkt_bth_set_tver
    pkt_bth_set_pkey pkt_bth_set_fecn pkt_bth_set_becn pkt_bth_set_qpn pkt_bth_set_ack
    pkt_bth_set_resv7 pkt_bth_set_psn pkt_bth_set_resv6a
pkt_bth_set-assigns m pkt n i v bytes outside =
    let b = load_bth m (bth_addr pkt) in
    let wide = load_bth-IsBth m (bth_addr pkt) bytes in
    let header : IsHeader b = record { flags = wide.flags; qpn = wide.qpn; apsn = wide.apsn } in
    let set = bth_set-assigns b header v n in
    (
      store_bth-IsAssigned m (bth_addr pkt) i (bth_set_opcode b n) _ outside
          (bth_set_opcode-IsBth b wide n) (set.0.0),
      store_bth-IsAssigned m (bth_addr pkt) i (bth_set_se b v) _ outside (bth_set_se-IsBth b wide v)
          (set.0.1),
      store_bth-IsAssigned m (bth_addr pkt) i (bth_set_mig b v) _ outside
          (bth_set_mig-IsBth b wide v) (set.0.2),
      store_bth-IsAssigned m (bth_addr pkt) i (bth_set_pad b n) _ outside
          (bth_set_pad-IsBth b wide n) (set.0.3),
      store_bth-IsAssigned m (bth_addr pkt) i (bth_set_tver b n) _ outside
          (bth_set_tver-IsBth b wide n) (set.0.4),
      store_bth-IsAssigned m (bth_addr pkt) i (bth_set_pkey b n) _ outside
          (bth_set_pkey-IsBth b wide n) (set.0.5),
      store_bth-IsAssigned m (bth_addr pkt) i (bth_set_fecn b v) _ outside
          (bth_set_fecn-IsBth b wide v) (set.1.0),
      store_bth-IsAssigned m (bth_addr pkt) i (bth_set_becn b v) _ outside
          (bth_set_becn-IsBth b wide v) (set.1.1),
      store_bth-IsAssigned m (bth_addr pkt) i (bth_set_qpn b n) _ outside
          (bth_set_qpn-IsBth b wide n) (set.1.2),
      store_bth-IsAssigned m (bth_addr pkt) i (bth_set_ack b v) _ outside
          (bth_set_ack-IsBth b wide v) (set.2.0),
      store_bth-IsAssigned m (bth_addr pkt) i (bth_set_resv7 b) _ outside
          (bth_set_resv7-IsBth b wide) (set.2.1),
      store_bth-IsAssigned m (bth_addr pkt) i (bth_set_psn b n) _ outside
          (bth_set_psn-IsBth b wide n) (set.2.2),
      store_bth-IsAssigned m (bth_addr pkt) i (bth_set_resv6a b) _ outside
          (bth_set_resv6a-IsBth b wide) (bth_set_resv6a-decode b),
    )
