-- ===== src/Cnp.antt =====
-- src/cnp.cpp: the congestion notification packet, its template and its invariant CRC.
pub mod Template
pub mod Icrc
pub mod Generate
use libconntrack_cm.Base.{
  ℕ, zero, suc, ◌+◌, ◌-◌, Bool, true, false, ◌&&◌, not, List, [], ◌∷◌, Option, none, some, ltb,
  if◌then◌else◌, bit_or,
}
use libconntrack_cm.Packet.{Result, ok, ◌>>=◌, Dpdk, Mbuf, mbuf_ip, mbuf_bth}
use libconntrack_cm.Packet.Memory.{Bytes, swap16, swap32, store8, store16, store32}
use libconntrack_cm.Bth.{
  bth_qpn, bth_set_qpn, bth_set_opcode, bth_set_becn, bth_set_pkey, bth_fecn_mask, bth_becn_mask,
  bth_resv6a_mask, load_bth, store_bth,
}
use libconntrack_cm.Parser.{udp_bytes, bth_bytes, udp_port_roce_v2}

-- What a function of the interface returns: 0, or -1.
pub data Status : Type 0 where
  success failure : Status

-- `sizeof(iphdr)`, `CTCM_CNP_LENGTH`, `CTCM_ICRC_LENGTH`.
abbrev pub ip_bytes : ℕ
ip_bytes = 20

abbrev pub cnp_length : ℕ
cnp_length = 16

abbrev pub icrc_length : ℕ
icrc_length = 4

abbrev pub cnp_total_length : ℕ
cnp_total_length = bth_bytes + cnp_length + icrc_length

-- `memset`: `n` bytes from `a` on.
unfoldable pub memset : Bytes → ℕ → ℕ → ℕ → Bytes
memset m a v n i = if not (ltb i a) && ltb i (a + n) then v else m i

-- `memcpy`: `n` bytes of `src` from `b` on, to `a`.
unfoldable pub memcpy : Bytes → ℕ → Bytes → ℕ → ℕ → Bytes
memcpy m a src b n i = if not (ltb i a) && ltb i (a + n) then src (b + (i - a)) else m i

-- The fields of the IPv4 header in the order in which they are written. `version` and `ihl` are the two
-- halves of the first byte.
unfoldable pub fill_ip : Bytes → ℕ → ℕ → Bytes
unfolding store8 store16 swap16
fill_ip m ip len =
    let m1 = store8 m ip 0x45 in
    let m2 = store8 m1 (ip + 8) 255 in
    let m3 = store8 m2 (ip + 9) 17 in
    let m4 = store16 m3 (ip + 6) (swap16 0x4000) in
    let m5 = store8 m4 (ip + 1) 0xc2 in store16 m5 (ip + 2) (swap16 len)

unfoldable pub fill_udp : Bytes → ℕ → Bytes
unfolding store16 swap16
fill_udp m udp =
    let m1 = store16 m udp (swap16 0xf000) in
    let m2 = store16 m1 (udp + 2) (swap16 udp_port_roce_v2) in
    store16 m2 (udp + 4) (swap16 (udp_bytes + cnp_total_length))

unfoldable pub fill_bth : Bytes → ℕ → Bytes
fill_bth m bth =
    store_bth m bth (bth_set_pkey (bth_set_becn (bth_set_opcode (load_bth m bth) 0x81) true) 0xffff)

-- The packet with its header template at `ip`.
unfoldable pub fill_headers : Bytes → ℕ → ℕ → Bytes
fill_headers m ip len =
    let udp = ip + ip_bytes in
    fill_bth (fill_udp (fill_ip (memset m ip 0 len) ip len) udp) (udp + udp_bytes)

abbrev pub template_length : ℕ
template_length = ip_bytes + udp_bytes + cnp_total_length

unfoldable pub fill_appended : Mbuf → Option (ℕ × Mbuf) → Status × Mbuf
fill_appended before none = (failure, before)
fill_appended before (some (ip, cnp)) =
    (success, record cnp { bytes = fill_headers cnp.bytes ip template_length })

-- `struct cnp_icrc_pseudo_packet`: where its parts stand, and its size.
abbrev pub pseudo_ip : ℕ
pseudo_ip = 8

abbrev pub pseudo_udp : ℕ
pseudo_udp = pseudo_ip + ip_bytes

abbrev pub pseudo_bth : ℕ
pseudo_bth = pseudo_udp + udp_bytes

abbrev pub pseudo_bytes : ℕ
pseudo_bytes = pseudo_bth + bth_bytes + cnp_length

-- The copy of the packet whose IPv4 header is at `ip`, with the fields of the IPv4 and UDP headers that
-- may change on the way set to ones.
unfoldable pub mask_headers : Bytes → ℕ → Bytes
unfolding memset memcpy store8 store16
mask_headers m ip =
    let m1 = memset (λ _. 0) 0 0xff pseudo_ip in
    let m2 = memcpy m1 pseudo_ip m ip (pseudo_bytes - pseudo_ip) in
    let m3 = store16 m2 (pseudo_ip + 10) 0xffff in
    let m4 = store8 m3 (pseudo_ip + 8) 0xff in
    let m5 = store8 m4 (pseudo_ip + 1) 0xff in store16 m5 (pseudo_udp + 6) 0xffff

abbrev pub masked_bits : ℕ
masked_bits = bit_or (bit_or bth_fecn_mask bth_becn_mask) bth_resv6a_mask

-- The pseudo packet over which the CRC is taken.
unfoldable pub pseudo_packet : Bytes → ℕ → Bytes
pseudo_packet m ip =
    let m6 = mask_headers m ip in
    store32 m6 (pseudo_bth + 4) (swap32 (bit_or masked_bits (bth_qpn (load_bth m6 pseudo_bth))))

-- `n` bytes from `a` on.
unfoldable pub bytes_at : Bytes → ℕ → ℕ → List ℕ
bytes_at m a zero = []
bytes_at m a (suc n) = m a ∷ bytes_at m (a + 1) n

unfoldable pub icrc_input : Bytes → ℕ → List ℕ
icrc_input m ip = bytes_at (pseudo_packet m ip) 0 pseudo_bytes

-- The store of `__bth_set_qpn` through the header at `bth`.
unfoldable pub write_qpn : Bytes → ℕ → ℕ → Bytes
write_qpn m bth dest_qpn = store32 m (bth + 4) (bth_set_qpn (load_bth m bth) dest_qpn).qpn

module _ (d : Dpdk) where
  unfoldable pub ctcm_fill_cnp_template : Mbuf → Status × Mbuf
  ctcm_fill_cnp_template cnp =
      let typed = record cnp {
        packet_type = bit_or d.ptype_l4_udp d.ptype_l3_ipv4;
        l3_len = ip_bytes;
        l4_len = udp_bytes;
      } in
      fill_appended typed (d.append typed template_length)

  unfoldable pub ctcm_generate_cnp : Mbuf → ℕ → Result Mbuf
  ctcm_generate_cnp cnp dest_qpn = do
    ip ← mbuf_ip d cnp
    bth ← mbuf_bth cnp
    let m = write_qpn cnp.bytes bth dest_qpn
    let icrc = d.crc32_eth (icrc_input m ip)
    ok (record cnp { bytes = store32 m (bth + bth_bytes + cnp_length) icrc })
