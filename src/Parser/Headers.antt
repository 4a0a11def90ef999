-- ===== src/Parser/Headers.antt =====
-- The tests of `parse_packet` on the headers, by the bytes of the wire in network order.
use libconntrack_cm.Base.{
  ℕ, ◌+◌, ◌-◌, ◌≡◌, refl, Bool, true, not, ◌&&◌, none, some, arith, ltb, ◌==◌, if◌then◌else◌,
}
use libconntrack_cm.Packet.Memory.{
  Bytes, IsBytes, be16, be24, load16, load32, swap16, swap32, swap16-load16, swap32-load32,
}
use libconntrack_cm.Bth.{bth_opcode, bth_qpn, load_bth}
use libconntrack_cm.Bth.Bits.{low24}
use libconntrack_cm.Parser.{extract_bth, extract_deth, mad_after_deth}

-- The UDP header is long enough for a BTH and an ICRC, and goes to the RoCE v2 port.
abbrev pub has_bth : Bytes → ℕ → Bool
has_bth m udp = not (ltb (be16 m (udp + 4)) 24) && (be16 m (udp + 2) == 4791)

-- The BTH is that of an unreliable datagram for QP 1, and a CM MAD follows it. The UDP length is at
-- least 48.
abbrev pub has_mad : Bytes → ℕ → Bool
has_mad m udp =
    has_bth m udp
    && not (ltb (be16 m (udp + 4)) 48)
    && (m (udp + 8) == 0x64)
    && (be24 m (udp + 13) == 1)
    && (m (udp + 29) == 7)

same_port : (m : Bytes) (a : ℕ) → IsBytes m → (load16 m a == swap16 4791) ≡ (be16 m a == 4791)
unfolding load16 swap16
same_port m a b = ground (arith, b a, b (a + 1))

qpn-be24 : (m : Bytes) (a : ℕ) → IsBytes m → bth_qpn (load_bth m a) ≡ be24 m (a + 5)
unfolding bth_qpn load_bth
qpn-be24 m a b = ground (
  arith,
  low24 (swap32 (load32 m (a + 4))),
  swap32-load32 m (a + 4) b,
  b (a + 5),
  b (a + 6),
  b (a + 7),
)

opcode-byte : (m : Bytes) (a : ℕ) → bth_opcode (load_bth m a) ≡ m a
unfolding bth_opcode load_bth
opcode-byte m a = refl

udp_len-be16 : (m : Bytes) (a : ℕ) → IsBytes m → swap16 (load16 m a) ≡ be16 m a
udp_len-be16 m a b = swap16-load16 m a b

-- Where the headers are found.
pub extract_bth-has_bth :
    (m : Bytes) (udp : ℕ)
    → IsBytes m
    → extract_bth m udp (swap16 (load16 m (udp + 4)))
      ≡ (if has_bth m udp then some (udp + 8, be16 m (udp + 4) - 16) else none)
extract_bth-has_bth m udp b =
    rw (udp_len-be16 m (udp + 4) b) (unfold extract_bth in ground (arith, same_port m (udp + 2) b))

pub mad_after_deth-has_mad :
    (m : Bytes) (udp : ℕ)
    → IsBytes m
    → has_bth m udp ≡ true
    → mad_after_deth m (udp + 8) (extract_deth m (udp + 8) (be16 m (udp + 4) - 16))
      ≡ (if has_mad m udp then some (udp + 28) else none)
mad_after_deth-has_mad m udp b h =
    unfold mad_after_deth extract_deth in
    ground (arith, opcode-byte m (udp + 8), qpn-be24 m (udp + 8) b)
