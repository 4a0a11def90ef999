-- ===== src/Parser/Reach.antt =====
-- When `parse_packet` returns: the pointers that it stores have to lie in the packet.
use libconntrack_cm.Base.{
  ℕ, ◌+◌, ◌-◌, ◌≡◌, refl, ◌∙◌, ap, Bool, true, false, Option, none, some, arith, ltb, if◌then◌else◌,
  Bool-cases, inl, inr,
}
use libconntrack_cm.Packet.{
  Result, ok, is_ok, ◌>>=◌, Dpdk, DynfieldOffsets, Mbuf, mbuf_udp, set_offset, offset_of,
  ctcm_mbuf_set_bth, ctcm_mbuf_set_mad,
}
use libconntrack_cm.Packet.Memory.{IsBytes, be16}
use libconntrack_cm.Packet.Dynfields.{stored}
use libconntrack_cm.Parser.{record_mad, pointer, parse_rest, parse_packet}
use libconntrack_cm.Parser.Headers.{has_bth, has_mad, extract_bth-has_bth, mad_after_deth-has_mad}

abbrev udp : Mbuf → ℕ
udp packet = packet.l2_len + packet.l3_len

-- The BTH, with the length that is left after it.
abbrev bth_found : Mbuf → ℕ × ℕ
bth_found packet = (udp packet + 8, be16 packet.bytes (udp packet + 4) - 16)

-- The offset of the last header that the bytes of the wire announce, or 0.
abbrev pub reach : Mbuf → ℕ
reach packet =
    if has_mad packet.bytes (udp packet)
    then udp packet + 28
    else if has_bth packet.bytes (udp packet)
    then udp packet + 8
    else 0

set_bth-is_ok :
    (offsets : DynfieldOffsets) (packet : Mbuf) (p : Option ℕ)
    (next : Mbuf → Result (Option ℕ × Mbuf))
    → is_ok (ctcm_mbuf_set_bth offsets packet p >>= next) ≡ (
        if ltb (offset_of p) packet.pkt_len
        then is_ok (next (stored offsets.bth packet p))
        else false)
unfolding ctcm_mbuf_set_bth set_offset
set_bth-is_ok offsets packet p next = elim (Bool-cases (ltb (offset_of p) packet.pkt_len)) [
  | inl h ↦ rw h refl
  | inr h ↦ rw h refl
]

set_mad-is_ok :
    (offsets : DynfieldOffsets) (packet : Mbuf) (p : Option ℕ)
    (next : Mbuf → Result (Option ℕ × Mbuf))
    → is_ok (ctcm_mbuf_set_mad offsets packet p >>= next) ≡ (
        if ltb (offset_of p) packet.pkt_len
        then is_ok (next (stored offsets.mad packet p))
        else false)
unfolding ctcm_mbuf_set_mad set_offset
set_mad-is_ok offsets packet p next = elim (Bool-cases (ltb (offset_of p) packet.pkt_len)) [
  | inl h ↦ rw h refl
  | inr h ↦ rw h refl
]

record_mad-is_ok :
    (offsets : DynfieldOffsets) (packet : Mbuf) (udp : ℕ) (is : Bool)
    → is_ok (record_mad offsets packet (if is then some (udp + 28) else none))
      ≡ (if is then ltb (udp + 28) packet.pkt_len else true)
unfolding record_mad
record_mad-is_ok offsets packet udp true =
    set_mad-is_ok offsets packet (some (udp + 28)) (λ p. ok (some (udp + 28), p)) ∙ ground arith
record_mad-is_ok offsets packet udp false = refl

-- What `parse_packet` does after it has looked for the BTH.
abbrev stores : DynfieldOffsets → Mbuf → Option (ℕ × ℕ) → Result (Option ℕ × Mbuf)
stores offsets packet found = ctcm_mbuf_set_bth offsets packet (pointer found) >>= λ with_bth.
    ctcm_mbuf_set_mad offsets with_bth none >>= λ cleared. parse_rest offsets cleared found

module _ (offsets : DynfieldOffsets) (packet : Mbuf) (b : IsBytes packet.bytes) where
  parse_rest-is_ok :
      (packet' : Mbuf)
      → packet'.bytes ≡ packet.bytes
      → packet'.pkt_len ≡ packet.pkt_len
      → has_bth packet.bytes (udp packet) ≡ true
      → is_ok (parse_rest offsets packet' (some (bth_found packet)))
        ≡ (if has_mad packet.bytes (udp packet) then ltb (udp packet + 28) packet.pkt_len else true)
  unfolding parse_rest
  parse_rest-is_ok packet' same len h =
      ap (λ r. is_ok (record_mad offsets packet' r))
        (rw same (mad_after_deth-has_mad packet.bytes (udp packet) b h))
      ∙ record_mad-is_ok offsets packet' (udp packet) (has_mad packet.bytes (udp packet))
      ∙ rw len refl

  stores-none-is_ok : is_ok (stores offsets packet none) ≡ ltb 0 packet.pkt_len
  unfolding parse_rest
  stores-none-is_ok =
      set_bth-is_ok offsets packet none _
      ∙ rw (set_mad-is_ok offsets (stored offsets.bth packet none) none (λ c. ok (none, c)))
          (ground arith)

  stores-some-is_ok :
      has_bth packet.bytes (udp packet) ≡ true
      → is_ok (stores offsets packet (some (bth_found packet))) ≡ (
          if has_mad packet.bytes (udp packet)
          then ltb (udp packet + 28) packet.pkt_len
          else ltb (udp packet + 8) packet.pkt_len)
  stores-some-is_ok h =
      set_bth-is_ok offsets packet (some (udp packet + 8)) _
      ∙ rw
          (
            set_mad-is_ok offsets (stored offsets.bth packet (some (udp packet + 8))) none
                λ c. parse_rest offsets c (some (bth_found packet)),
            parse_rest-is_ok
                (stored offsets.mad (stored offsets.bth packet (some (udp packet + 8))) none) refl
                refl h,
          )
          (ground arith)

  reach-cases :
      has_bth packet.bytes (udp packet) ≡ true
      → (if has_mad packet.bytes (udp packet)
          then ltb (udp packet + 28) packet.pkt_len
          else ltb (udp packet + 8) packet.pkt_len)
        ≡ ltb (reach packet) packet.pkt_len
  reach-cases h = elim (Bool-cases (has_mad packet.bytes (udp packet))) [
    | inl e ↦ rw e refl
    | inr e ↦ rw (e, h) refl
  ]

-- On a UDP packet of bytes, `parse_packet` returns exactly when the last header that the bytes announce, the MAD or
-- the BTH, starts in the packet, and when it announces none, exactly when the packet is not empty.
pub parse_packet-is_ok :
    (d : Dpdk) (offsets : DynfieldOffsets) (packet : Mbuf)
    → IsBytes packet.bytes
    → mbuf_udp d packet ≡ ok (packet.l2_len + packet.l3_len)
    → is_ok (parse_packet d offsets packet) ≡ ltb (reach packet) packet.pkt_len
unfolding parse_packet parse_rest
parse_packet-is_ok d offsets packet b is_udp =
    rw (is_udp, extract_bth-has_bth packet.bytes (udp packet) b)
      (elim (Bool-cases (has_bth packet.bytes (udp packet))) [
        | inl h ↦
            let found : (if has_bth packet.bytes (udp packet)
                  then some (bth_found packet)
                  else none)
                ≡ some (bth_found packet) =
              rw h refl in
            ap (λ x. is_ok (stores offsets packet x)) found
            ∙ stores-some-is_ok offsets packet b h
            ∙ reach-cases offsets packet b h
        | inr h ↦ rw h (stores-none-is_ok offsets packet b)
      ])
