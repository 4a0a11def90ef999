-- ===== src/Packet.antt =====
-- The packet buffer as the library sees it: the fields of `rte_mbuf` that it reads and writes, the
-- inline accessors of src/parser.h, and the dynamic fields of include/libconntrack-cm.h.
-- A pointer into the packet is its offset from `rte_pktmbuf_mtod`, and `nullptr` is `none`.
pub mod Dynfields
pub mod Memory
pub mod Network
use libconntrack_cm.Base.{
  ℕ, ◌+◌, ◌%◌, ◌^◌, ◌<◌, ◌≡◌, refl, Bool, true, false, not, ◌&&◌, ◌||◌, Option, none, some, List,
  bit_and, bit_or, ltb, ◌==◌, if◌then◌else◌, update,
}

-- How a call can fail to return: a failed `assert`, or an access through a null pointer.
pub data Fault : Type 0 where
  assertion null_access : Fault

pub data Result {ℓ} (A : Type ℓ) : Type ℓ where
  ok : A → Result A
  stop : Fault → Result A

abbrev pub is_ok {ℓ} : {A : Type ℓ} → Result A → Bool
is_ok (ok a) = true
is_ok (stop e) = false

abbrev pub assert : Bool → Result (Unit {0})
assert true = ok tt
assert false = stop assertion

-- What follows a computation is run on its result, and left out after a failure.
infixl 5 ◌>>=◌
abbrev pub ◌>>=◌ {ℓ ℓ'} : {A : Type ℓ} {C : Type ℓ'} → Result A → (A → Result C) → Result C
stop fault >>= k = stop fault
ok result >>= k = k result

infixl 5 ◌>>◌
abbrev pub ◌>>◌ {ℓ} : {C : Type ℓ} → Result (Unit {0}) → Result C → Result C
first >> second = first >>= λ done. second

-- `bytes a` is the byte at offset `a`. `dynfields o` is the 16-bit dynamic field at offset `o`.
pub record Mbuf : Type 0 where
  pub bytes : ℕ → ℕ
  pub pkt_len : ℕ
  pub l2_len : ℕ
  pub l3_len : ℕ
  pub l4_len : ℕ
  pub packet_type : ℕ
  pub dynfields : ℕ → ℕ

-- What the library uses of DPDK and does not implement: the packet type flags, the CRC over a list of bytes,
-- and `rte_pktmbuf_append`, which gives the place of the new bytes and the longer packet, or nothing when
-- there is no room.
pub record Dpdk : Type 0 where
  pub is_ipv4_hdr : ℕ → Bool
  pub ptype_l4_mask : ℕ
  pub ptype_l4_udp : ℕ
  pub ptype_l3_ipv4 : ℕ
  pub crc32_eth : List ℕ → ℕ
  pub append : Mbuf → ℕ → Option (ℕ × Mbuf)

-- `struct ctcm_dynfield_offsets`; `size` is filled by the caller or by the constructor.
pub record DynfieldOffsets : Type 0 where
  pub size : ℕ
  pub bth : ℕ
  pub mad : ℕ

-- A pointer kept in a dynamic field: 0 stands for null.
unfoldable pub get_offset : ℕ → Mbuf → Result (Option ℕ)
get_offset field packet =
    let offset = packet.dynfields field in
    if offset == 0 then ok none else do assert (ltb offset packet.pkt_len); ok (some offset)

abbrev pub offset_of : Option ℕ → ℕ
offset_of none = 0
offset_of (some p) = p

unfoldable pub set_offset : ℕ → Mbuf → Option ℕ → Result Mbuf
set_offset field packet p = do
  assert (ltb (offset_of p) packet.pkt_len)
  ok (record packet { dynfields = update packet.dynfields field (offset_of p % 2 ^ 16) })

unfoldable pub ctcm_mbuf_get_bth : DynfieldOffsets → Mbuf → Result (Option ℕ)
unfolding get_offset
ctcm_mbuf_get_bth offsets packet = get_offset offsets.bth packet

unfoldable pub ctcm_mbuf_set_bth : DynfieldOffsets → Mbuf → Option ℕ → Result Mbuf
unfolding set_offset
ctcm_mbuf_set_bth offsets packet bth = set_offset offsets.bth packet bth

unfoldable pub ctcm_mbuf_get_mad : DynfieldOffsets → Mbuf → Result (Option ℕ)
unfolding get_offset
ctcm_mbuf_get_mad offsets packet = get_offset offsets.mad packet

unfoldable pub ctcm_mbuf_set_mad : DynfieldOffsets → Mbuf → Option ℕ → Result Mbuf
unfolding set_offset
ctcm_mbuf_set_mad offsets packet mad = set_offset offsets.mad packet mad

-- The accessors of src/parser.h.
module _ (d : Dpdk) where
  unfoldable pub mbuf_ip : Mbuf → Result ℕ
  mbuf_ip packet = do assert (d.is_ipv4_hdr packet.packet_type); ok packet.l2_len

  unfoldable pub mbuf_udp : Mbuf → Result ℕ
  mbuf_udp packet = do
    assert
        (not (packet.l3_len == 0) && (bit_and packet.packet_type d.ptype_l4_mask == d.ptype_l4_udp))
    ok (packet.l2_len + packet.l3_len)

unfoldable pub mbuf_bth : Mbuf → Result ℕ
mbuf_bth packet = do
  assert (not (packet.l3_len == 0) && not (packet.l4_len == 0))
  ok (packet.l2_len + packet.l3_len + packet.l4_len)
