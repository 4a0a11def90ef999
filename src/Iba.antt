-- ===== src/Iba.antt =====
-- src/iba.h, and what it uses of src/bitfield.h and src/linux-compat.h: the fields of a management
-- datagram, each given by the place of the word that holds it, its mask in CPU order and the width of
-- the word. The host is little-endian and `unsigned long` has 64 bits.
pub mod Set
pub mod Run
pub mod Word
pub mod Assign
pub mod Bit
pub mod Apart
use libconntrack_cm.Base.{ℕ, zero, suc, ◌+◌, ◌-◌, ◌*◌, ◌/◌, ◌%◌, ◌^◌, bit_and, ◌==◌, if◌then◌else◌}
use libconntrack_cm.Packet.Memory.{Bytes, load16, load32, swap16, swap32}

-- `~UL(0)`.
abbrev ones : ℕ
ones = 2 ^ 64 - 1

-- `GENMASK(h, l)`, on 64-bit words.
unfoldable pub genmask : ℕ → ℕ → ℕ
genmask h l = bit_and (ones - 2 ^ l + 1) (ones / 2 ^ (63 - h))

-- `__bf_shf`, `__builtin_ffsll(x) - 1`: the number of trailing zeros of a mask that is not 0, as the mask of every
-- field is.
pub trailing_zeros : ℕ → ℕ → ℕ
trailing_zeros zero mask = 0
trailing_zeros (suc bits) mask =
    let above = trailing_zeros bits (mask / 2) in if mask % 2 == 0 then suc above else 0

unfoldable pub bf_shf : ℕ → ℕ
unfolding trailing_zeros
bf_shf mask = trailing_zeros 64 mask

-- `FIELD_GET` and `FIELD_PREP`, at run time.
unfoldable pub field_get : ℕ → ℕ → ℕ
unfolding bf_shf
field_get mask reg = bit_and reg mask / 2 ^ bf_shf mask

unfoldable pub field_prep : ℕ → ℕ → ℕ
unfolding bf_shf
field_prep mask value = bit_and (value * 2 ^ bf_shf mask % 2 ^ 64) mask

-- The parameters that a field's name stands for: offset, mask and number of bits of the word.
pub record Field : Type 0 where
  pub offset : ℕ
  pub mask : ℕ
  pub num_bits : ℕ

unfoldable pub iba_field_bloc : ℕ → ℕ → ℕ → Field
unfolding genmask
iba_field_bloc byte_offset bit_offset num_bits = record {
  offset = byte_offset;
  mask = genmask (7 - bit_offset) (7 - bit_offset - (num_bits - 1));
  num_bits = 8;
}

unfoldable pub iba_field8_loc : ℕ → ℕ → Field
unfolding iba_field_bloc
iba_field8_loc byte_offset num_bits = iba_field_bloc byte_offset 0 num_bits

unfoldable pub iba_field16_loc : ℕ → ℕ → Field
unfolding genmask
iba_field16_loc byte_offset num_bits = record {
  offset = bit_and byte_offset 0xfffe;
  mask = genmask (15 - byte_offset % 2 * 8) (15 - byte_offset % 2 * 8 - (num_bits - 1));
  num_bits = 16;
}

unfoldable pub iba_field32_loc : ℕ → ℕ → Field
unfolding genmask
iba_field32_loc byte_offset num_bits = record {
  offset = bit_and byte_offset 0xfffc;
  mask = genmask (31 - byte_offset % 4 * 8) (31 - byte_offset % 4 * 8 - (num_bits - 1));
  num_bits = 32;
}

unfoldable pub iba_field64_loc : ℕ → Field
unfolding genmask
iba_field64_loc byte_offset = record { offset = byte_offset; mask = genmask 63 0; num_bits = 64 }

-- A field that is a run of bytes: its offset and its length in bits.
pub record MemField : Type 0 where
  pub offset : ℕ
  pub num_bits : ℕ

unfoldable pub iba_field_mloc : ℕ → ℕ → MemField
iba_field_mloc byte_offset num_bits = record { offset = byte_offset; num_bits = num_bits }

-- `_iba_get8`, `_iba_get16`, `_iba_get32` and `_iba_get64`, by the width of the word.
unfoldable pub iba_get8 : Bytes → ℕ → ℕ
iba_get8 m ptr = m ptr

unfoldable pub iba_get16 : Bytes → ℕ → ℕ
unfolding load16 swap16
iba_get16 m ptr = swap16 (load16 m ptr)

unfoldable pub iba_get32 : Bytes → ℕ → ℕ
unfolding load32 swap32
iba_get32 m ptr = swap32 (load32 m ptr)

unfoldable pub iba_get64 : Bytes → ℕ → ℕ
unfolding load32 swap32
iba_get64 m ptr = swap32 (load32 m ptr) * 2 ^ 32 + swap32 (load32 m (ptr + 4))

unfoldable pub iba_get_word : ℕ → Bytes → ℕ → ℕ
unfolding iba_get8 iba_get16 iba_get32 iba_get64
iba_get_word num_bits m ptr =
    if num_bits == 8
    then iba_get8 m ptr
    else if num_bits == 16
    then iba_get16 m ptr
    else if num_bits == 32
    then iba_get32 m ptr
    else iba_get64 m ptr

-- `IBA_GET(field, ptr)`.
unfoldable pub iba_get : Field → Bytes → ℕ → ℕ
unfolding field_get iba_get_word
iba_get f m ptr = field_get f.mask (iba_get_word f.num_bits m (ptr + f.offset)) % 2 ^ f.num_bits
