-- ===== src/Cnp/Template.antt =====
-- The bytes that `ctcm_fill_cnp_template` writes.
use libconntrack_cm.Base.{
  ℕ, ◌+◌, ◌-◌, ◌<◌, ◌≤◌, ◌≡◌, ◌⊎◌, refl, ap, arith, ltb, ◌==◌, if◌then◌else◌, some, Bool-cases, inl,
  inr, ◌∙◌, bit_or,
}
use libconntrack_cm.Packet.{Dpdk, Mbuf}
use libconntrack_cm.Packet.Memory.{Bytes, load16, load32, swap32}
use libconntrack_cm.Bth.{Bth, load_bth, store_bth, bth_set_opcode, bth_set_becn, bth_set_pkey}
use libconntrack_cm.Cnp.{
  success, memset, fill_ip, fill_udp, fill_bth, fill_headers, fill_appended, ctcm_fill_cnp_template,
  template_length,
}

-- The header of a notification packet, byte by byte, addresses and checksums left 0.
abbrev pub template_byte : ℕ → ℕ
template_byte i =
    if i == 0
    then 0x45
    else if i == 1
    then 0xc2
    else if i == 3
    then 60
    else if i == 6
    then 0x40
    else if i == 8
    then 0xff
    else if i == 9
    then 0x11
    else if i == 20
    then 0xf0
    else if i == 22
    then 0x12
    else if i == 23
    then 0xb7
    else if i == 25
    then 40
    else if i == 28
    then 0x81
    else if i == 30
    then 0xff
    else if i == 31
    then 0xff
    else if i == 32
    then 0x40
    else 0

load-zeros :
    (m : Bytes) (a : ℕ)
    → ((i : ℕ) → a ≤ i → i < a + 12 → m i ≡ 0)
    → load_bth m a ≡ record { opcode = 0; flags = 0; pkey = 0; qpn = 0; apsn = 0 }
unfolding load_bth load16 load32
load-zeros m a z =
    rw
      (
        z a (omega arith) (omega arith),
        z (a + 1) (omega arith) (omega arith),
        z (a + 2) (omega arith) (omega arith),
        z (a + 2 + 1) (omega arith) (omega arith),
        z (a + 4) (omega arith) (omega arith),
        z (a + 4 + 1) (omega arith) (omega arith),
        z (a + 4 + 2) (omega arith) (omega arith),
        z (a + 4 + 3) (omega arith) (omega arith),
        z (a + 8) (omega arith) (omega arith),
        z (a + 8 + 1) (omega arith) (omega arith),
        z (a + 8 + 2) (omega arith) (omega arith),
        z (a + 8 + 3) (omega arith) (omega arith),
      )
      refl

-- The header that the template stores, and its bytes.
abbrev header : Bth
header = record { opcode = 0x81; flags = 0; pkey = 0xffff; qpn = 0x40; apsn = 0 }

store-header :
    (m : Bytes) (a i : ℕ) → i < 12 → store_bth m a header (a + i) ≡ template_byte (28 + i)
unfolding store_bth
store-header m a i lt = ground arith

store_bth-outside :
    (m : Bytes) (a : ℕ) (b : Bth) (i : ℕ) → i < a ⊎ a + 12 ≤ i → store_bth m a b i ≡ m i
unfolding store_bth
store_bth-outside m a b i h = ground arith

module _ (m : Bytes) (ip : ℕ) where
  before_bth : Bytes
  before_bth = fill_udp (fill_ip (memset m ip 0 template_length) ip template_length) (ip + 20)

  before-zero : (i : ℕ) → ip + 28 ≤ i → i < ip + 60 → before_bth i ≡ 0
  unfolding before_bth fill_udp fill_ip memset
  before-zero i le lt = ground arith

  before-template : (i : ℕ) → i < 28 → before_bth (ip + i) ≡ template_byte i
  unfolding before_bth fill_udp fill_ip memset
  before-template i lt = ground arith

  before-outside : (i : ℕ) → i < ip ⊎ ip + 60 ≤ i → before_bth i ≡ m i
  unfolding before_bth fill_udp fill_ip memset
  before-outside i h = ground arith

  fill_headers-store : fill_headers m ip template_length ≡ store_bth before_bth (ip + 28) header
  unfolding fill_headers before_bth fill_bth bth_set_opcode bth_set_becn bth_set_pkey swap32
  fill_headers-store =
      let at : ip + 20 + 8 ≡ ip + 28 = omega arith in
      rw (at, load-zeros before_bth (ip + 28) (λ i le lt. before-zero i le (omega arith))) refl

  -- From the base transport header on.
  header-template :
      (i : ℕ) → 28 ≤ i → i < 60 → store_bth before_bth (ip + 28) header (ip + i) ≡ template_byte i
  header-template i le lt = elim (Bool-cases (ltb i 40)) [
    | inl e ↦
        let at : ip + i ≡ ip + 28 + (i - 28) = omega arith in
        let back : 28 + (i - 28) ≡ i = omega arith in
        rw at (store-header before_bth (ip + 28) (i - 28) (ground arith) ∙ ap template_byte back)
    | inr e ↦
        store_bth-outside before_bth (ip + 28) header (ip + i) (inr (ground arith))
        ∙ before-zero (ip + i) (omega arith) (omega arith)
        ∙ ground arith
  ]

  fill_headers-byte :
      (i : ℕ) → i < 60 → fill_headers m ip template_length (ip + i) ≡ template_byte i
  fill_headers-byte i lt = elim (Bool-cases (ltb i 28)) [
    | inl e ↦ rw fill_headers-store (
        store_bth-outside before_bth (ip + 28) header (ip + i) (inl (ground arith))
        ∙ before-template i (ground arith))
    | inr e ↦ rw fill_headers-store (header-template i (ground arith) lt)
  ]

  fill_headers-outside : (i : ℕ) → i < ip ⊎ ip + 60 ≤ i → fill_headers m ip template_length i ≡ m i
  fill_headers-outside i h =
      rw fill_headers-store
        (store_bth-outside before_bth (ip + 28) header i (ground (arith, h)) ∙ before-outside i h)

-- The packet that is handed to DPDK: marked as IPv4 and UDP, with the lengths of their headers.
abbrev pub typed : Dpdk → Mbuf → Mbuf
typed d cnp = record cnp {
  packet_type = bit_or d.ptype_l4_udp d.ptype_l3_ipv4;
  l3_len = 20;
  l4_len = 8;
}

-- Where DPDK appends 60 bytes at `ip` to the packet, marked as IPv4 and UDP with the lengths of their
-- headers, `ctcm_fill_cnp_template` succeeds, and writes exactly the bytes of the template there and no
-- byte elsewhere.
pub ctcm_fill_cnp_template-writes :
    (d : Dpdk) (cnp : Mbuf) (ip : ℕ) (appended : Mbuf)
    → d.append (typed d cnp) 60 ≡ some (ip, appended)
    → (cnp' : Mbuf) × (ctcm_fill_cnp_template d cnp ≡ (success, cnp'))
      × ((i : ℕ) → i < 60 → cnp'.bytes (ip + i) ≡ template_byte i)
      × ((i : ℕ) → i < ip ⊎ ip + 60 ≤ i → cnp'.bytes i ≡ appended.bytes i)
unfolding ctcm_fill_cnp_template fill_appended
ctcm_fill_cnp_template-writes d cnp ip appended e = (
  record appended { bytes = fill_headers appended.bytes ip template_length },
  rw e refl,
  fill_headers-byte appended.bytes ip,
  fill_headers-outside appended.bytes ip,
)
