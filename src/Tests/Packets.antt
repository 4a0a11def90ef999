-- ===== src/Tests/Packets.antt =====
-- The packets of a connection: a REQ that the host sends, the REP that answers it, and the RTU.
use libconntrack_cm.Base.{
  ℕ, ◌+◌, ◌*◌, ◌%◌, ◌^◌, ◌<◌, arith, List, [], ◌∷◌, ◌++◌, some, bit_and, ◌==◌, if◌then◌else◌,
}
use libconntrack_cm.Packet.{Dpdk, DynfieldOffsets, Mbuf}
use libconntrack_cm.Packet.Memory.{Bytes, IsBytes}

-- Bytes by their addresses; the others are 0.
lookup : List (ℕ × ℕ) → ℕ → ℕ
lookup [] a = 0
lookup ((b, v) ∷ rest) a = if b == a then v else lookup rest a

unfoldable pub sparse : List (ℕ × ℕ) → Bytes
unfolding lookup
sparse cells a = lookup cells a % 2 ^ 8

pub sparse-IsBytes : (cells : List (ℕ × ℕ)) → IsBytes (sparse cells)
unfolding sparse
sparse-IsBytes cells a = omega arith

sum : List ℕ → ℕ
sum [] = 0
sum (x ∷ xs) = x + sum xs

-- A checksum in place of the CRC.
unfoldable pub checksum : List ℕ → ℕ
unfolding sum
checksum xs = sum xs % 2 ^ 32

pub checksum-lt : (xs : List ℕ) → checksum xs < 2 ^ 32
unfolding checksum
checksum-lt xs = omega arith

abbrev pub dpdk : Dpdk
dpdk = record {
  is_ipv4_hdr = λ t. bit_and t 0xf0 == 0x10;
  ptype_l4_mask = 0xf00;
  ptype_l4_udp = 0x200;
  ptype_l3_ipv4 = 0x10;
  crc32_eth = checksum;
  append = λ packet len. some (packet.pkt_len, record packet { pkt_len = packet.pkt_len + len });
}

abbrev pub offsets : DynfieldOffsets
offsets = record { size = 12; bth = 40; mad = 42 }

-- An IPv4 and UDP packet with a CM message: the source address ends in 2, the MAD header is at 62.
abbrev headers : List (ℕ × ℕ)
headers =
    (26, 10)
    ∷ (29, 2)
    ∷ (30, 10)
    ∷ (33, 2)
    ∷ (36, 0x12)
    ∷ (37, 0xb7)
    ∷ (38, 0x01)
    ∷ (39, 0x20)
    ∷ (42, 0x64)
    ∷ (49, 1)
    ∷ (63, 7)
    ∷ []

abbrev pub packet : List (ℕ × ℕ) → Mbuf
packet message = record {
  bytes = sparse (headers ++ message);
  pkt_len = 400;
  l2_len = 14;
  l3_len = 20;
  l4_len = 8;
  packet_type = 0x210;
  dynfields = λ field. if field == 42 then 62 else 0;
}

abbrev pub req : Mbuf
req = packet ((79, 0x10) ∷ (89, 5) ∷ (120, 17) ∷ [])

abbrev pub rep : Mbuf
rep = packet ((79, 0x13) ∷ (89, 9) ∷ (93, 5) ∷ (100, 33) ∷ [])

abbrev pub rtu : Mbuf
rtu = packet ((79, 0x14) ∷ (89, 5) ∷ (93, 9) ∷ [])

-- The place of the remote side as the host's queries name it.
abbrev pub remote_address : ℕ
remote_address = 10 + 2 * 2 ^ 24

pub packet-IsBytes : (message : List (ℕ × ℕ)) → IsBytes (packet message).bytes
packet-IsBytes message = sparse-IsBytes (headers ++ message)

pub req-IsBytes : IsBytes req.bytes
req-IsBytes = packet-IsBytes ((79, 0x10) ∷ (89, 5) ∷ (120, 17) ∷ [])

abbrev pub drep : Mbuf
drep = packet ((79, 0x16) ∷ (89, 9) ∷ (93, 5) ∷ [])

abbrev pub dreq : Mbuf
dreq = packet ((79, 0x15) ∷ (89, 5) ∷ (93, 9) ∷ [])

-- A REQ of another connection.
abbrev pub other_req : Mbuf
other_req = packet ((79, 0x10) ∷ (89, 6) ∷ (120, 18) ∷ [])

abbrev pub rej : Mbuf
rej = packet ((79, 0x12) ∷ (89, 9) ∷ (93, 5) ∷ [])

-- A REQ whose communication ID is 0.
abbrev pub anonymous_req : Mbuf
anonymous_req = packet ((79, 0x10) ∷ (120, 17) ∷ [])

-- The messages of a connection that the remote side opens.
abbrev pub remote_req : Mbuf
remote_req = packet ((79, 0x10) ∷ (89, 9) ∷ (120, 33) ∷ [])

abbrev pub host_rep : Mbuf
host_rep = packet ((79, 0x13) ∷ (89, 5) ∷ (93, 9) ∷ (100, 17) ∷ [])

abbrev pub remote_rtu : Mbuf
remote_rtu = packet ((79, 0x14) ∷ (89, 9) ∷ (93, 5) ∷ [])
