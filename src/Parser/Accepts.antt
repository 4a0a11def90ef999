-- ===== src/Parser/Accepts.antt =====
-- Which packets `parse_packet` takes for a connection manager's MAD, by the bytes of the wire in network
-- order, and what it records in the packet.
use libconntrack_cm.Base.{
  ℕ, ◌+◌, ◌-◌, ◌^◌, ◌<◌, ◌≡◌, ◌≢◌, refl, sym, ap, true, Option, none, some, arith, if◌then◌else◌,
  Bool-cases, inl, inr, ◌∙◌,
}
use libconntrack_cm.Packet.{
  ok, Dpdk, DynfieldOffsets, Mbuf, mbuf_udp, ctcm_mbuf_set_bth, ctcm_mbuf_set_mad,
  ctcm_mbuf_get_mad, ctcm_mbuf_get_bth, offset_of,
}
use libconntrack_cm.Packet.Memory.{IsBytes, be16}
use libconntrack_cm.Packet.Dynfields.{
  stored, set_offset-ok, get_offset-stored, get_offset-stored_ne,
}
use libconntrack_cm.Parser.{record_mad, pointer, parse_rest, parse_packet}
use libconntrack_cm.Parser.Headers.{has_bth, has_mad, extract_bth-has_bth, mad_after_deth-has_mad}

-- The packet after `parse_packet` has written its fields: the MAD field is cleared first.
abbrev cleared : DynfieldOffsets → Mbuf → Option ℕ → Mbuf
cleared offsets packet bth = stored offsets.mad (stored offsets.bth packet bth) none

abbrev recorded : DynfieldOffsets → Mbuf → Option ℕ → Mbuf
recorded offsets packet none = packet
recorded offsets packet (some mad) = stored offsets.mad packet (some mad)

set_mad-ok :
    (offsets : DynfieldOffsets) (packet : Mbuf) (p : Option ℕ)
    → offset_of p < packet.pkt_len
    → ctcm_mbuf_set_mad offsets packet p ≡ ok (stored offsets.mad packet p)
unfolding ctcm_mbuf_set_mad
set_mad-ok offsets packet p h = set_offset-ok offsets.mad packet p h

set_bth-ok :
    (offsets : DynfieldOffsets) (packet : Mbuf) (p : Option ℕ)
    → offset_of p < packet.pkt_len
    → ctcm_mbuf_set_bth offsets packet p ≡ ok (stored offsets.bth packet p)
unfolding ctcm_mbuf_set_bth
set_bth-ok offsets packet p h = set_offset-ok offsets.bth packet p h

record_mad-ok :
    (offsets : DynfieldOffsets) (packet : Mbuf) (mad : Option ℕ)
    → offset_of mad < packet.pkt_len
    → record_mad offsets packet mad ≡ ok (mad, recorded offsets packet mad)
unfolding record_mad
record_mad-ok offsets packet none h = refl
record_mad-ok offsets packet (some mad) h = rw (set_mad-ok offsets packet (some mad) h) refl

module _ (offsets : DynfieldOffsets) (packet : Mbuf) (bth : Option ℕ)
    (apart : offsets.bth ≢ offsets.mad) (bth_in : offset_of bth < packet.pkt_len)
    (bth_fits : offset_of bth < 2 ^ 16) (bth_ne : bth ≢ some 0) where
  cleared-bth : ctcm_mbuf_get_bth offsets (cleared offsets packet bth) ≡ ok bth
  unfolding ctcm_mbuf_get_bth
  cleared-bth =
      get_offset-stored_ne offsets.mad offsets.bth (stored offsets.bth packet bth) none
        (λ e. apart (sym e))
      ∙ get_offset-stored offsets.bth packet bth bth_in bth_fits bth_ne

  recorded-bth :
      (mad : Option ℕ)
      → ctcm_mbuf_get_bth offsets (recorded offsets (cleared offsets packet bth) mad) ≡ ok bth
  recorded-bth none = cleared-bth
  recorded-bth (some mad) =
      unfold ctcm_mbuf_get_bth in
      get_offset-stored_ne offsets.mad offsets.bth (cleared offsets packet bth) (some mad)
        (λ e. apart (sym e))
      ∙ cleared-bth

recorded-mad :
    (offsets : DynfieldOffsets) (packet : Mbuf) (bth mad : Option ℕ)
    → offset_of mad < packet.pkt_len
    → offset_of mad < 2 ^ 16
    → mad ≢ some 0
    → ctcm_mbuf_get_mad offsets (recorded offsets (cleared offsets packet bth) mad) ≡ ok mad
unfolding ctcm_mbuf_get_mad
recorded-mad offsets packet bth none lt fits ne =
    get_offset-stored offsets.mad (stored offsets.bth packet bth) none lt fits ne
recorded-mad offsets packet bth (some mad) lt fits ne =
    get_offset-stored offsets.mad (cleared offsets packet bth) (some mad) lt fits ne

recorded-bytes :
    (offsets : DynfieldOffsets) (packet : Mbuf) (bth mad : Option ℕ)
    → (recorded offsets (cleared offsets packet bth) mad).bytes ≡ packet.bytes
recorded-bytes offsets packet bth none = refl
recorded-bytes offsets packet bth (some mad) = refl

module _ (d : Dpdk) (offsets : DynfieldOffsets) (packet : Mbuf) (b : IsBytes packet.bytes)
    (is_udp : mbuf_udp d packet ≡ ok (packet.l2_len + packet.l3_len))
    (apart : offsets.bth ≢ offsets.mad)
    (inside : packet.l2_len + packet.l3_len + 28 < packet.pkt_len)
    (fits : packet.l2_len + packet.l3_len + 28 < 2 ^ 16) where
  -- The pointers that the wire asks for.
  abbrev bth_pointer : Option ℕ
  bth_pointer =
      if has_bth packet.bytes (packet.l2_len + packet.l3_len)
      then some (packet.l2_len + packet.l3_len + 8)
      else none

  abbrev mad_pointer : Option ℕ
  mad_pointer =
      if has_mad packet.bytes (packet.l2_len + packet.l3_len)
      then some (packet.l2_len + packet.l3_len + 28)
      else none

  abbrev found : Option (ℕ × ℕ)
  found =
      if has_bth packet.bytes (packet.l2_len + packet.l3_len)
      then some (
        packet.l2_len + packet.l3_len + 8,
        be16 packet.bytes (packet.l2_len + packet.l3_len + 4) - 16,
      )
      else none

  pointer-found : pointer found ≡ bth_pointer
  pointer-found = ground arith

  found-some :
      has_bth packet.bytes (packet.l2_len + packet.l3_len) ≡ true
      → found
        ≡ some (
          packet.l2_len + packet.l3_len + 8,
          be16 packet.bytes (packet.l2_len + packet.l3_len + 4) - 16,
        )
  found-some h = rw h refl

  parse_rest-found :
      (packet' : Mbuf)
      → packet'.bytes ≡ packet.bytes
      → packet'.pkt_len ≡ packet.pkt_len
      → parse_rest offsets packet' found ≡ ok (mad_pointer, recorded offsets packet' mad_pointer)
  unfolding parse_rest
  parse_rest-found packet' same len =
      elim (Bool-cases (has_bth packet.bytes (packet.l2_len + packet.l3_len))) [
        | inl h ↦
            ap (parse_rest offsets packet') (found-some h)
            ∙ ap (record_mad offsets packet')
                (rw same (mad_after_deth-has_mad packet.bytes (packet.l2_len + packet.l3_len) b h))
            ∙ record_mad-ok offsets packet' mad_pointer (ground arith)
        | inr h ↦ rw h refl
      ]

  parse_packet-ok :
      parse_packet d offsets packet
      ≡ ok (mad_pointer, recorded offsets (cleared offsets packet bth_pointer) mad_pointer)
  unfolding parse_packet
  parse_packet-ok =
      rw
        (
          is_udp,
          extract_bth-has_bth packet.bytes (packet.l2_len + packet.l3_len) b,
          pointer-found,
          set_bth-ok offsets packet bth_pointer (ground arith),
          set_mad-ok offsets (stored offsets.bth packet bth_pointer) none (ground arith),
        )
        (parse_rest-found (cleared offsets packet bth_pointer) refl refl)

  -- The packet is UDP, its headers lie in it up to the MAD at offsets that fit 16 bits, and its two dynamic
  -- fields differ. Then `parse_packet` returns, with the MAD exactly when the wire has the form of a CM MAD; it
  -- records the BTH and the MAD, or null, in the packet's dynamic fields, and changes no byte.
  pub parse_packet-accepts :
      (packet' : Mbuf) × (parse_packet d offsets packet ≡ ok (mad_pointer, packet'))
      × (ctcm_mbuf_get_bth offsets packet' ≡ ok bth_pointer)
      × (ctcm_mbuf_get_mad offsets packet' ≡ ok mad_pointer)
      × (packet'.bytes ≡ packet.bytes)
  parse_packet-accepts = (
    recorded offsets (cleared offsets packet bth_pointer) mad_pointer,
    parse_packet-ok,
    recorded-bth offsets packet bth_pointer apart (ground arith) (ground arith) (ground arith)
        mad_pointer,
    recorded-mad offsets packet bth_pointer mad_pointer (ground arith) (ground arith)
        (ground arith),
    recorded-bytes offsets packet bth_pointer mad_pointer,
  )
