-- ===== src/Parser/Bounds.antt =====
-- How far the MAD that `parse_packet` returns reaches in the packet.
use libconntrack_cm.Base.{
  ℕ, ◌+◌, ◌<◌, ◌≤◌, ◌≡◌, ◌≢◌, ◌^◌, ap, sym, ◌∙◌, Bool, true, Option, none, some, arith,
  if◌then◌else◌,
}
use libconntrack_cm.Packet.{Dpdk, DynfieldOffsets, Mbuf, Result, ok, stop, mbuf_udp}
use libconntrack_cm.Packet.Memory.{IsBytes, be16}
use libconntrack_cm.Parser.{parse_packet, mad_bytes}
use libconntrack_cm.Parser.Accepts.{parse_packet-accepts}
use libconntrack_cm.Parser.Headers.{has_mad}

-- The MAD that a run returns.
abbrev mad_of : Result (Option ℕ × Mbuf) → Option ℕ
mad_of (ok (mad, packet)) = mad
mad_of (stop e) = none

found-at : (b : Bool) (p q : ℕ) → (if b then some p else none) ≡ some q → (b ≡ true) × (q ≡ p)
found-at b p q e = ground arith

-- The packet is UDP, its headers lie in it up to the MAD at offsets that fit 16 bits, and its two dynamic
-- fields differ. Then a MAD that is returned stands 28 bytes after the start of the
-- UDP header, and its header ends at most 4 bytes after the end of the UDP datagram.
pub parse_packet-ends :
    (d : Dpdk) (offsets : DynfieldOffsets) (packet : Mbuf) (mad : ℕ) (packet' : Mbuf)
    → IsBytes packet.bytes
    → mbuf_udp d packet ≡ ok (packet.l2_len + packet.l3_len)
    → offsets.bth ≢ offsets.mad
    → packet.l2_len + packet.l3_len + 28 < packet.pkt_len
    → packet.l2_len + packet.l3_len + 28 < 2 ^ 16
    → parse_packet d offsets packet ≡ ok (some mad, packet')
    → (mad ≡ packet.l2_len + packet.l3_len + 28)
      × (mad + mad_bytes
          ≤ packet.l2_len
            + packet.l3_len
            + be16 packet.bytes (packet.l2_len + packet.l3_len + 4)
            + 4)
parse_packet-ends d offsets packet mad packet' b is_udp apart inside fits run =
    let udp = packet.l2_len + packet.l3_len in
    let (packet'', returns, bth, recorded, bytes) =
      parse_packet-accepts d offsets packet b is_udp apart inside fits in
    let (has, at) =
      found-at (has_mad packet.bytes udp) (udp + 28) mad (ap mad_of (sym returns ∙ run)) in
    (at, ground arith)
