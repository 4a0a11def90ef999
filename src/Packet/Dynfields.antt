-- ===== src/Packet/Dynfields.antt =====
-- The dynamic fields of a packet: what is set is what is read, and the two do not disturb each other.
use libconntrack_cm.Base.{
  ℕ, zero, suc, sym, ◌%◌, ◌^◌, ◌<◌, ◌≡◌, ◌≢◌, refl, true, false, Option, none, some, arith, ltb,
  ◌==◌, update,
}
use libconntrack_cm.Packet.{
  Mbuf, DynfieldOffsets, ok, offset_of, ctcm_mbuf_get_bth, ctcm_mbuf_get_mad, ctcm_mbuf_set_mad,
  get_offset, set_offset,
}

-- The packet after a pointer is stored in a field.
abbrev pub stored : ℕ → Mbuf → Option ℕ → Mbuf
stored field packet p = record packet {
  dynfields = update packet.dynfields field (offset_of p % 2 ^ 16);
}

-- A store succeeds when the offset lies in the packet, and otherwise fails its assertion: an empty
-- packet refuses even the null pointer.
pub set_offset-ok :
    (field : ℕ) (packet : Mbuf) (p : Option ℕ)
    → offset_of p < packet.pkt_len
    → set_offset field packet p ≡ ok (stored field packet p)
unfolding set_offset
set_offset-ok field packet p h =
    let t : ltb (offset_of p) packet.pkt_len ≡ true = ground arith in rw t refl

pub get_offset-stored :
    (field : ℕ) (packet : Mbuf) (p : Option ℕ)
    → offset_of p < packet.pkt_len
    → offset_of p < 2 ^ 16
    → p ≢ some 0
    → get_offset field (stored field packet p) ≡ ok p
unfolding get_offset
get_offset-stored field packet none lt fits ne = ground arith
get_offset-stored field packet (some zero) lt fits ne = absurd (ne refl)
get_offset-stored field packet (some (suc a)) lt fits ne =
    let e : suc a % 2 ^ 16 ≡ suc a = omega arith in ground arith

pub get_offset-stored_ne :
    (field other : ℕ) (packet : Mbuf) (p : Option ℕ)
    → field ≢ other
    → get_offset other (stored field packet p) ≡ get_offset other packet
unfolding get_offset
get_offset-stored_ne field other packet p ne =
    let e : (field == other) ≡ false = ground arith in rw e refl

-- A pointer into the packet that is stored in one dynamic field is read back from it, while the other
-- field reads as before. The offset must lie in the packet and fit the 16 bits of the field; a pointer
-- to the very start of the packet would read as null.
pub set_mad-get :
    (offsets : DynfieldOffsets) (packet : Mbuf) (p : Option ℕ)
    → offsets.bth ≢ offsets.mad
    → offset_of p < packet.pkt_len
    → offset_of p < 2 ^ 16
    → p ≢ some 0
    → (packet' : Mbuf) × (ctcm_mbuf_set_mad offsets packet p ≡ ok packet')
      × (ctcm_mbuf_get_mad offsets packet' ≡ ok p)
      × (ctcm_mbuf_get_bth offsets packet' ≡ ctcm_mbuf_get_bth offsets packet)
unfolding ctcm_mbuf_set_mad ctcm_mbuf_get_mad ctcm_mbuf_get_bth
set_mad-get offsets packet p apart lt fits ne = (
  stored offsets.mad packet p,
  set_offset-ok offsets.mad packet p lt,
  get_offset-stored offsets.mad packet p lt fits ne,
  get_offset-stored_ne offsets.mad offsets.bth packet p (λ e. apart (sym e)),
)
