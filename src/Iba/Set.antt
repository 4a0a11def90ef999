-- ===== src/Iba/Set.antt =====
-- The writers of src/iba.h: `IBA_SET` replaces a field of a word and keeps the word's other bits; `IBA_SET_MEM` and
-- `IBA_GET_MEM` copy a field of bytes.
use libconntrack_cm.Base.{
  ℕ, ◌+◌, ◌-◌, ◌%◌, ◌^◌, not, ◌&&◌, Option, none, some, bit_and, bit_or, ◌==◌, ltb, if◌then◌else◌,
}
use libconntrack_cm.Packet.Memory.{Bytes, store8}
use libconntrack_cm.Packet.Network.{write_be16, write_be32, write_be64}
use libconntrack_cm.Iba.{Field, MemField, field_prep, iba_get8, iba_get16, iba_get32, iba_get64}

-- `(value & ~mask) | prep_value`, on words of `num_bits` bits.
abbrev pub replaced : ℕ → ℕ → ℕ → ℕ → ℕ
replaced num_bits value mask prep_value =
    bit_or (bit_and value (2 ^ num_bits - 1 - mask)) prep_value

unfoldable pub iba_set8 : Bytes → ℕ → ℕ → ℕ → Bytes
iba_set8 m ptr mask prep_value = store8 m ptr (replaced 8 (iba_get8 m ptr) mask prep_value)

unfoldable pub iba_set16 : Bytes → ℕ → ℕ → ℕ → Bytes
iba_set16 m ptr mask prep_value = write_be16 m ptr (replaced 16 (iba_get16 m ptr) mask prep_value)

unfoldable pub iba_set32 : Bytes → ℕ → ℕ → ℕ → Bytes
iba_set32 m ptr mask prep_value = write_be32 m ptr (replaced 32 (iba_get32 m ptr) mask prep_value)

unfoldable pub iba_set64 : Bytes → ℕ → ℕ → ℕ → Bytes
iba_set64 m ptr mask prep_value = write_be64 m ptr (replaced 64 (iba_get64 m ptr) mask prep_value)

unfoldable pub iba_set_word : ℕ → Bytes → ℕ → ℕ → ℕ → Bytes
iba_set_word num_bits m ptr mask prep_value =
    if num_bits == 8
    then iba_set8 m ptr mask prep_value
    else if num_bits == 16
    then iba_set16 m ptr mask prep_value
    else if num_bits == 32
    then iba_set32 m ptr mask prep_value
    else iba_set64 m ptr mask prep_value

-- `IBA_SET(field, ptr, value)`; the mask and the value are cut to the parameters' types.
unfoldable pub iba_set : Field → Bytes → ℕ → ℕ → Bytes
iba_set f m ptr value =
    iba_set_word f.num_bits m (ptr + f.offset) (f.mask % 2 ^ f.num_bits)
      (field_prep f.mask value % 2 ^ f.num_bits)

-- `memcpy(m + dst, from + src, bytes)`, from memory that is not written.
abbrev pub memcpy : Bytes → ℕ → Bytes → ℕ → ℕ → Bytes
memcpy m dst from src bytes i =
    if not (ltb i dst) && ltb i (dst + bytes) then from (src + (i - dst)) else m i

unfoldable pub iba_get_mem_ptr : MemField → ℕ → ℕ
iba_get_mem_ptr f ptr = ptr + f.offset

-- A null pointer copies nothing. The warning about a length that is too large is left out.
unfoldable pub iba_set_mem : MemField → Bytes → ℕ → Bytes → Option ℕ → ℕ → Bytes
unfolding iba_get_mem_ptr
iba_set_mem f m ptr from none bytes = m
iba_set_mem f m ptr from (some src) bytes =
    if bytes == 0 then m else memcpy m (iba_get_mem_ptr f ptr) from src bytes

-- The memory of `out` after the copy.
unfoldable pub iba_get_mem : MemField → Bytes → ℕ → Bytes → Option ℕ → ℕ → Bytes
unfolding iba_get_mem_ptr
iba_get_mem f m ptr out none bytes = out
iba_get_mem f m ptr out (some dst) bytes =
    if bytes == 0 then out else memcpy out dst m (iba_get_mem_ptr f ptr) bytes
