-- ===== src/Api/NullSafety.antt =====
-- Parsing and processing a packet through the C interface never follows a null pointer: the tracker runs only on a
-- packet whose MAD pointer is set.
use libconntrack_cm.Base.{
  ℕ, ◌≡◌, ◌≢◌, refl, Bool, true, false, not, ◌&&◌, Option, none, some, ltb, ◌==◌, bit_and,
  Bool-cases, inl, inr,
}
use libconntrack_cm.Packet.{
  Result, ok, stop, null_access, assert, ◌>>=◌, ◌>>◌, Dpdk, DynfieldOffsets, Mbuf, mbuf_udp,
  ctcm_mbuf_get_mad, ctcm_mbuf_set_mad, ctcm_mbuf_set_bth, get_offset, set_offset, offset_of,
}
use libconntrack_cm.Parser.{parse_packet, parse_rest, record_mad}
use libconntrack_cm.Tracker.Message.{mad_header}
use libconntrack_cm.Tracker.Dispatch.{Direction}
use libconntrack_cm.Tracker.Access.{NoNull, returns, asserts, NoNull-sound}
use libconntrack_cm.Tracker.Access.Process.{process-NoNull}
use libconntrack_cm.Api.{Context, ctcm_parse_packet, ctcm_process_packet, process_mad}

after :
    {A C : Type 0} {r : Result A} {k : A → Result C}
    → NoNull r
    → ((a : A) → r ≡ ok a → NoNull (k a))
    → NoNull (r >>= k)
after returns next = next _ refl
after asserts next = asserts

after_assert : {A : Type 0} (b : Bool) (r : Result A) → NoNull r → NoNull (assert b >> r)
after_assert true r safe = safe
after_assert false r safe = asserts

get_offset-NoNull : (field : ℕ) (packet : Mbuf) → NoNull (get_offset field packet)
unfolding get_offset
get_offset-NoNull field packet = elim (Bool-cases (packet.dynfields field == 0)) [
  | inl null ↦ rw null returns
  | inr set ↦ rw set (after_assert (ltb (packet.dynfields field) packet.pkt_len) _ returns)
]

set_offset-NoNull : (field : ℕ) (packet : Mbuf) (p : Option ℕ) → NoNull (set_offset field packet p)
unfolding set_offset
set_offset-NoNull field packet p = after_assert (ltb (offset_of p) packet.pkt_len) _ returns

set_bth-NoNull :
    (offsets : DynfieldOffsets) (packet : Mbuf) (p : Option ℕ)
    → NoNull (ctcm_mbuf_set_bth offsets packet p)
unfolding ctcm_mbuf_set_bth
set_bth-NoNull offsets packet p = set_offset-NoNull offsets.bth packet p

set_mad-NoNull :
    (offsets : DynfieldOffsets) (packet : Mbuf) (p : Option ℕ)
    → NoNull (ctcm_mbuf_set_mad offsets packet p)
unfolding ctcm_mbuf_set_mad
set_mad-NoNull offsets packet p = set_offset-NoNull offsets.mad packet p

module _ (d : Dpdk) where
  mbuf_udp-NoNull : (packet : Mbuf) → NoNull (mbuf_udp d packet)
  unfolding mbuf_udp
  mbuf_udp-NoNull packet =
      after_assert
        (not (packet.l3_len == 0) && (bit_and packet.packet_type d.ptype_l4_mask == d.ptype_l4_udp))
        _ returns

  record_mad-NoNull :
      (offsets : DynfieldOffsets) (packet : Mbuf) (p : Option ℕ)
      → NoNull (record_mad offsets packet p)
  unfolding record_mad
  record_mad-NoNull offsets packet none = returns
  record_mad-NoNull offsets packet (some mad) =
      after (set_mad-NoNull offsets packet (some mad)) λ packet' e. returns

  parse_rest-NoNull :
      (offsets : DynfieldOffsets) (packet : Mbuf) (found : Option (ℕ × ℕ))
      → NoNull (parse_rest offsets packet found)
  unfolding parse_rest
  parse_rest-NoNull offsets packet none = returns
  parse_rest-NoNull offsets packet (some (bth, len)) = record_mad-NoNull offsets packet _

  parse_packet-NoNull :
      (offsets : DynfieldOffsets) (packet : Mbuf) → NoNull (parse_packet d offsets packet)
  unfolding parse_packet
  parse_packet-NoNull offsets packet = after (mbuf_udp-NoNull packet) λ udp e.
      after (set_bth-NoNull offsets packet _) λ with_bth e'.
        after (set_mad-NoNull offsets with_bth none)
          λ cleared e''. parse_rest-NoNull offsets cleared _

  ctcm_parse_packet-NoNull :
      (ctcm : Context) (packet : Mbuf) → NoNull (ctcm_parse_packet d ctcm packet)
  unfolding ctcm_parse_packet
  ctcm_parse_packet-NoNull ctcm packet =
      after (parse_packet-NoNull ctcm.parser packet) λ parsed e. returns

  process_mad-NoNull :
      (ctcm : Context) (dir : Direction) (packet : Mbuf) (mad : Option ℕ)
      → ctcm_mbuf_get_mad ctcm.parser packet ≡ ok mad
      → NoNull (process_mad d ctcm dir packet mad)
  unfolding process_mad mad_header
  process_mad-NoNull ctcm dir packet none e = returns
  process_mad-NoNull ctcm dir packet (some mad) e =
      let set : NoNull (mad_header ctcm.parser packet) = rw (mad_header, e) returns in
      after (process-NoNull d ctcm.parser packet set dir ctcm.tracker) λ done e'. returns

  ctcm_process_packet-NoNull :
      (ctcm : Context) (dir : Direction) (packet : Mbuf)
      → NoNull (ctcm_process_packet d ctcm dir packet)
  unfolding ctcm_process_packet ctcm_mbuf_get_mad
  ctcm_process_packet-NoNull ctcm dir packet =
      after (get_offset-NoNull ctcm.parser.mad packet)
        λ mad e. process_mad-NoNull ctcm dir packet mad e

  -- On any context and any packet, whatever its dynamic fields hold, neither parsing nor processing ends by an access
  -- through a null pointer.
  pub ctcm_parse_process-NoNull :
      (ctcm : Context) (dir : Direction) (packet : Mbuf)
      → (ctcm_parse_packet d ctcm packet ≢ stop null_access)
        × (ctcm_process_packet d ctcm dir packet ≢ stop null_access)
  ctcm_parse_process-NoNull ctcm dir packet = (
    NoNull-sound (ctcm_parse_packet-NoNull ctcm packet),
    NoNull-sound (ctcm_process_packet-NoNull ctcm dir packet),
  )
