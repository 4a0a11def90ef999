-- ===== src/Ext/Ack.antt =====
-- The acknowledge header: the syndrome and the message sequence number share a word, and the setters of
-- src/rxe_hdr.h keep them apart.
use libconntrack_cm.Base.{ℕ, ◌+◌, ◌*◌, ◌/◌, ◌%◌, ◌^◌, ◌<◌, ◌≡◌, refl, arith, bit_and, bit_or}
use libconntrack_cm.Base.Bits.{
  bit_and-split, bit_or-split, bit_and-zero, bit_or-zero, bit_or-zero_left, ones-bit_and,
}
use libconntrack_cm.Packet.Memory.{Bytes, load32, swap32-lt}
use libconntrack_cm.Packet.Network.{read_be32, read_be32-write_be32}
use libconntrack_cm.Bth.Bits.{low24, high8, join24}
use libconntrack_cm.Ext.Headers.{aeth_syn, aeth_set_syn, aeth_msn, aeth_set_msn}

pub record Aeth : Type 0 where
  pub syn : ℕ
  pub msn : ℕ

unfoldable pub decode_aeth : Bytes → ℕ → Aeth
decode_aeth m a = record { syn = aeth_syn m a; msn = aeth_msn m a }

word-lt : (m : Bytes) (a : ℕ) → read_be32 m a < 2 ^ 32
unfolding read_be32
word-lt m a = swap32-lt (load32 m a)

syn_part : (v : ℕ) → bit_and 0xff00_0000 (v * 2 ^ 24) ≡ v % 2 ^ 8 * 2 ^ 24
syn_part v = ground (arith, bit_and-split 24 255 0 v 0, ones-bit_and 8 v, bit_and-zero 0)

join_syn : (h r : ℕ) → bit_or (h * 2 ^ 24) (r % 2 ^ 24) ≡ h * 2 ^ 24 + r % 2 ^ 24
join_syn h r =
    ground (arith, bit_or-split 24 h 0 0 (r % 2 ^ 24), bit_or-zero h, bit_or-zero_left (r % 2 ^ 24))

-- The word after each setter.
set_syn-word :
    (m : Bytes) (a v : ℕ)
    → read_be32 (aeth_set_syn m a v) a ≡ v % 2 ^ 8 * 2 ^ 24 + read_be32 m a % 2 ^ 24
unfolding aeth_set_syn
set_syn-word m a v =
    let w = read_be32 m a in
    rw
      (
        syn_part v,
        low24 w,
        join_syn (v % 2 ^ 8) w,
        read_be32-write_be32 m a (v % 2 ^ 8 * 2 ^ 24 + w % 2 ^ 24),
      )
      (omega arith)

set_msn-word :
    (m : Bytes) (a v : ℕ)
    → read_be32 (aeth_set_msn m a v) a ≡ read_be32 m a / 2 ^ 24 * 2 ^ 24 + v % 2 ^ 24
unfolding aeth_set_msn
set_msn-word m a v =
    let w = read_be32 m a in
    rw
      (
        low24 v,
        high8 w (word-lt m a),
        join24 v (w / 2 ^ 24),
        read_be32-write_be32 m a (w / 2 ^ 24 * 2 ^ 24 + v % 2 ^ 24),
      )
      (omega (arith, word-lt m a))

-- The two reads of a word.
aeth_syn-high : (m : Bytes) (a : ℕ) → aeth_syn m a ≡ read_be32 m a / 2 ^ 24
unfolding aeth_syn
aeth_syn-high m a = rw (high8 (read_be32 m a) (word-lt m a)) (omega arith)

aeth_msn-low : (m : Bytes) (a : ℕ) → aeth_msn m a ≡ read_be32 m a % 2 ^ 24
unfolding aeth_msn
aeth_msn-low m a = low24 (read_be32 m a)

decode_aeth-word :
    (m : Bytes) (a : ℕ)
    → decode_aeth m a ≡ record { syn = read_be32 m a / 2 ^ 24; msn = read_be32 m a % 2 ^ 24 }
unfolding decode_aeth
decode_aeth-word m a = rw (aeth_syn-high m a, aeth_msn-low m a) refl

-- Each setter of an AETH assigns its own part of the word.
pub aeth_set-assigns :
    (m : Bytes) (a v : ℕ)
    → (decode_aeth (aeth_set_syn m a v) a ≡ record (decode_aeth m a) { syn = v % 2 ^ 8 })
      × (decode_aeth (aeth_set_msn m a v) a ≡ record (decode_aeth m a) { msn = v % 2 ^ 24 })
aeth_set-assigns m a v =
    let syn_word = set_syn-word m a v in
    let msn_word = set_msn-word m a v in
    let lt = word-lt m a in
    (
      rw (decode_aeth-word (aeth_set_syn m a v) a, decode_aeth-word m a) (ground arith),
      rw (decode_aeth-word (aeth_set_msn m a v) a, decode_aeth-word m a) (ground arith),
    )
