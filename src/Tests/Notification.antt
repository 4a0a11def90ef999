-- ===== src/Tests/Notification.antt =====
-- The notification packet on a concrete packet.
use libconntrack_cm.Base.{ℕ, ◌+◌, ◌<◌, ◌≤◌, ◌≡◌, ◌⊎◌, refl, List, [], ◌∷◌, arith}
use libconntrack_cm.Packet.{ok, Mbuf}
use libconntrack_cm.Packet.Memory.{load32}
use libconntrack_cm.Bth.{load_bth}
use libconntrack_cm.Cnp.{success, ctcm_fill_cnp_template, ctcm_generate_cnp, icrc_input}
use libconntrack_cm.Cnp.Generate.{IsFor, ctcm_generate_cnp-completes}
use libconntrack_cm.Cnp.Icrc.{SameInvariant, icrc_input-same}
use libconntrack_cm.Cnp.Template.{typed, template_byte, ctcm_fill_cnp_template-writes}
use libconntrack_cm.Tests.Packets.{
  dpdk, sparse, checksum-lt, packet, packet-IsBytes, req, req-IsBytes,
}

ctcm_generate_cnp-completes_example :
    (cnp' : Mbuf) × (ctcm_generate_cnp dpdk req 0xd2 ≡ ok cnp')
    × IsFor (load_bth req.bytes 42) 0xd2 (load_bth cnp'.bytes 42)
    × (load32 cnp'.bytes 70 ≡ dpdk.crc32_eth (icrc_input cnp'.bytes 14))
    × ((i : ℕ) → i < 46 ⊎ 50 ≤ i → i < 70 ⊎ 74 ≤ i → cnp'.bytes i ≡ req.bytes i)
ctcm_generate_cnp-completes_example =
    ctcm_generate_cnp-completes dpdk req 0xd2 req-IsBytes checksum-lt refl refl refl

-- A packet that differs from the REQ in its time to live and its congestion bits.
abbrev routed : List (ℕ × ℕ)
routed = (22, 64) ∷ (46, 0x80) ∷ (79, 0x10) ∷ (89, 5) ∷ (120, 17) ∷ []

same_routed : SameInvariant (packet routed).bytes 14 req.bytes 14
unfolding sparse
same_routed i lt v = ground arith

icrc_input-same_example : icrc_input (packet routed).bytes 14 ≡ icrc_input req.bytes 14
icrc_input-same_example =
    icrc_input-same (packet routed).bytes req.bytes 14 14 (packet-IsBytes routed) req-IsBytes
      same_routed

ctcm_fill_cnp_template-writes_example :
    (cnp' : Mbuf) × (ctcm_fill_cnp_template dpdk req ≡ (success, cnp'))
    × ((i : ℕ) → i < 60 → cnp'.bytes (400 + i) ≡ template_byte i)
    × ((i : ℕ) → i < 400 ⊎ 460 ≤ i → cnp'.bytes i ≡ req.bytes i)
ctcm_fill_cnp_template-writes_example =
    ctcm_fill_cnp_template-writes dpdk req 400 (record (typed dpdk req) { pkt_len = 460 }) refl
