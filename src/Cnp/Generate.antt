-- ===== src/Cnp/Generate.antt =====
-- What `ctcm_generate_cnp` leaves in the packet.
use libconntrack_cm.Base.{
  ℕ, ◌+◌, ◌<◌, ◌≤◌, ◌≡◌, ◌⊎◌, ◌%◌, ◌^◌, refl, sym, ap, true, List, arith, inl, ◌∙◌,
}
use libconntrack_cm.Packet.{ok, Dpdk, Mbuf, mbuf_ip, mbuf_bth}
use libconntrack_cm.Packet.Memory.{
  Bytes, IsBytes, store32, load32, load32-store32, load32-store32_above, load32-store32_below,
  load16-store32_above, store32-outside, store32-IsBytes, swap32-lt,
}
use libconntrack_cm.Bth.{Bth, bth_qpn, bth_set_qpn, bth_fecn, bth_becn, bth_resv6a, load_bth}
use libconntrack_cm.Bth.Qpn.{bth_set_qpn-reads}
use libconntrack_cm.Parser.{bth_bytes}
use libconntrack_cm.Cnp.{icrc_input, write_qpn, ctcm_generate_cnp, cnp_length}
use libconntrack_cm.Cnp.Icrc.{icrc_input-same}

write_qpn-IsBytes : (m : Bytes) (bth q : ℕ) → IsBytes m → IsBytes (write_qpn m bth q)
unfolding write_qpn
write_qpn-IsBytes m bth q b = store32-IsBytes m (bth + 4) _ b

set_qpn-lt : (b : Bth) (q : ℕ) → (bth_set_qpn b q).qpn < 2 ^ 32
unfolding bth_set_qpn
set_qpn-lt b q = swap32-lt _

-- The header that is read back is the one that `__bth_set_qpn` made.
load-write_qpn :
    (m : Bytes) (bth q : ℕ) → load_bth (write_qpn m bth q) bth ≡ bth_set_qpn (load_bth m bth) q
unfolding write_qpn load_bth
load-write_qpn m bth q =
    let v = (bth_set_qpn (load_bth m bth) q).qpn in
    rw
      (
        store32-outside m (bth + 4) v bth (inl (omega arith)),
        store32-outside m (bth + 4) v (bth + 1) (inl (omega arith)),
        load16-store32_above m (bth + 2) (bth + 4) v (omega arith),
        load32-store32 m (bth + 4) v (set_qpn-lt (load_bth m bth) q),
        load32-store32_below m (bth + 8) (bth + 4) v (omega arith),
      )
      (unfold bth_set_qpn in refl)

load-store32_above :
    (m : Bytes) (bth a v : ℕ) → bth + 12 ≤ a → load_bth (store32 m a v) bth ≡ load_bth m bth
unfolding load_bth
load-store32_above m bth a v h =
    rw
      (
        store32-outside m a v bth (inl (omega arith)),
        store32-outside m a v (bth + 1) (inl (omega arith)),
        load16-store32_above m (bth + 2) a v (omega arith),
        load32-store32_above m (bth + 4) a v (omega arith),
        load32-store32_above m (bth + 8) a v (omega arith),
      )
      refl

-- The places of the BTH and of the ICRC in a notification packet.
abbrev pub bth_place : Mbuf → ℕ
bth_place cnp = cnp.l2_len + cnp.l3_len + cnp.l4_len

abbrev pub icrc_place : Mbuf → ℕ
icrc_place cnp = bth_place cnp + bth_bytes + cnp_length

-- The notification packet is made: its BTH has the number asked for, cut to 24 bits, and keeps its other
-- fields.
abbrev pub IsFor : Bth → ℕ → Bth → Type 0
IsFor b q b' =
    (bth_qpn b' ≡ q % 2 ^ 24)
    × (bth_fecn b' ≡ bth_fecn b)
    × (bth_becn b' ≡ bth_becn b)
    × (bth_resv6a b' ≡ bth_resv6a b)
    × (b'.opcode ≡ b.opcode)
    × (b'.flags ≡ b.flags)
    × (b'.pkey ≡ b.pkey)
    × (b'.apsn ≡ b.apsn)

set_qpn-IsFor : (b : Bth) (q : ℕ) → IsFor b q (bth_set_qpn b q)
set_qpn-IsFor b q =
    let (qpn, fecn, becn, resv) = bth_set_qpn-reads b q in
    (
      qpn,
      fecn,
      becn,
      resv,
      unfold bth_set_qpn in refl,
      unfold bth_set_qpn in refl,
      unfold bth_set_qpn in refl,
      unfold bth_set_qpn in refl,
    )

module _ (d : Dpdk) (cnp : Mbuf) (dest_qpn : ℕ) (b : IsBytes cnp.bytes)
    (crc_lt : (xs : List ℕ) → d.crc32_eth xs < 2 ^ 32)
    (is_ipv4 : d.is_ipv4_hdr cnp.packet_type ≡ true) (l3 : cnp.l3_len ≡ 20)
    (l4 : cnp.l4_len ≡ 8) where
  abbrev written : Bytes
  written = write_qpn cnp.bytes (bth_place cnp) dest_qpn

  abbrev crc : ℕ
  crc = d.crc32_eth (icrc_input written cnp.l2_len)

  abbrev completed : Mbuf
  completed = record cnp { bytes = store32 written (icrc_place cnp) crc }

  ip-ok : mbuf_ip d cnp ≡ ok cnp.l2_len
  unfolding mbuf_ip
  ip-ok = rw is_ipv4 refl

  bth-ok : mbuf_bth cnp ≡ ok (bth_place cnp)
  unfolding mbuf_bth
  bth-ok = rw (l3, l4) refl

  generate-completed : ctcm_generate_cnp d cnp dest_qpn ≡ ok completed
  unfolding ctcm_generate_cnp
  generate-completed = rw (ip-ok, bth-ok) refl

  crc-completed : icrc_input completed.bytes cnp.l2_len ≡ icrc_input written cnp.l2_len
  crc-completed =
      icrc_input-same completed.bytes written cnp.l2_len cnp.l2_len
        (store32-IsBytes written (icrc_place cnp) crc
          (write_qpn-IsBytes cnp.bytes (bth_place cnp) dest_qpn b))
        (write_qpn-IsBytes cnp.bytes (bth_place cnp) dest_qpn b)
        (λ i lt _.
          store32-outside written (icrc_place cnp) crc (cnp.l2_len + i) (inl (omega arith)))

  -- The packet is IPv4, with a header of 20 bytes and a UDP header of 8, and the CRC has 32 bits. Then `ctcm_generate_cnp` returns, the BTH
  -- has the destination's number cut to 24 bits and keeps its other fields, the ICRC is the CRC of the
  -- finished packet, and no byte outside those two words changes.
  pub ctcm_generate_cnp-completes :
      (cnp' : Mbuf) × (ctcm_generate_cnp d cnp dest_qpn ≡ ok cnp')
      × IsFor (load_bth cnp.bytes (bth_place cnp)) dest_qpn (load_bth cnp'.bytes (bth_place cnp))
      × (load32 cnp'.bytes (icrc_place cnp) ≡ d.crc32_eth (icrc_input cnp'.bytes cnp.l2_len))
      × ((i : ℕ)
          → i < bth_place cnp + 4 ⊎ bth_place cnp + 8 ≤ i
          → i < icrc_place cnp ⊎ icrc_place cnp + 4 ≤ i
          → cnp'.bytes i ≡ cnp.bytes i)
  ctcm_generate_cnp-completes = (
    completed,
    generate-completed,
    rw
        (
          load-store32_above written (bth_place cnp) (icrc_place cnp) crc (omega arith),
          load-write_qpn cnp.bytes (bth_place cnp) dest_qpn,
        )
        (set_qpn-IsFor (load_bth cnp.bytes (bth_place cnp)) dest_qpn),
    load32-store32 written (icrc_place cnp) crc (crc_lt _) ∙ ap d.crc32_eth (sym crc-completed),
    λ i qpn icrc.
        store32-outside written (icrc_place cnp) crc i icrc
        ∙ (unfold write_qpn in
            store32-outside cnp.bytes (bth_place cnp + 4) _ i (ground (arith, qpn))),
  )
