-- ===== src/Bth/Bits.antt =====
-- The masks of the 32-bit words of the header as arithmetic: the upper byte holds flags, the lower
-- three a number; and, as the word is loaded, the flags are its lowest byte.
use libconntrack_cm.Base.{
  ℕ, ◌+◌, ◌-◌, ◌*◌, ◌/◌, ◌%◌, ◌^◌, ◌<◌, ◌≡◌, Bool, true, false, not, bit_and, bit_or, arith,
}
use libconntrack_cm.Base.Bits.{
  bit_and-split, bit_or-split, bit_and-zero, bit_or-zero, bit_or-zero_left, bit_and_comm,
  ones-bit_and, bit_and-ones,
}
use libconntrack_cm.Packet.Memory.{swap32}

abbrev pub bool_eq : Bool → Bool → Bool
bool_eq true b = b
bool_eq false b = not b

pub low24 : (x : ℕ) → bit_and 0x00ff_ffff x ≡ x % 2 ^ 24
low24 x = ones-bit_and 24 x

pub low24_right : (x : ℕ) → bit_and x 0x00ff_ffff ≡ x % 2 ^ 24
low24_right x = bit_and-ones 24 x

pub high8 : (x : ℕ) → x < 2 ^ 32 → bit_and 0xff00_0000 x ≡ x / 2 ^ 24 * 2 ^ 24
high8 x h = ground (
  arith,
  bit_and-split 24 255 0 (x / 2 ^ 24) (x % 2 ^ 24),
  ones-bit_and 8 (x / 2 ^ 24),
  bit_and_comm 0 (x % 2 ^ 24),
  bit_and-zero (x % 2 ^ 24),
)

pub join24 : (y h : ℕ) → bit_or (y % 2 ^ 24) (h * 2 ^ 24) ≡ h * 2 ^ 24 + y % 2 ^ 24
join24 y h =
    ground (arith, bit_or-split 24 0 (y % 2 ^ 24) h 0, bit_or-zero (y % 2 ^ 24), bit_or-zero_left h)

-- A mask of the lowest byte acts on the lowest byte alone.
pub and_low8 : (m x : ℕ) → m < 2 ^ 8 → bit_and m x ≡ bit_and m (x % 2 ^ 8)
and_low8 m x h = ground (
  arith,
  bit_and-split 8 0 m (x / 2 ^ 8) (x % 2 ^ 8),
  bit_and_comm 0 (x / 2 ^ 8),
  bit_and-zero (x / 2 ^ 8),
)

pub or_low8 : (m x : ℕ) → m < 2 ^ 8 → bit_or x m ≡ x / 2 ^ 8 * 2 ^ 8 + bit_or (x % 2 ^ 8) m
or_low8 m x h = ground (arith, bit_or-split 8 (x / 2 ^ 8) (x % 2 ^ 8) 0 m, bit_or-zero (x / 2 ^ 8))

-- `x & ~m` for such a mask, on a 32-bit word.
pub clear_low8 :
    (m x : ℕ)
    → m < 2 ^ 8
    → x < 2 ^ 32
    → bit_and x (2 ^ 32 - 1 - m) ≡ x / 2 ^ 8 * 2 ^ 8 + bit_and (x % 2 ^ 8) (2 ^ 8 - 1 - m)
clear_low8 m x h w = ground (
  arith,
  bit_and-split 8 (x / 2 ^ 8) (x % 2 ^ 8) (2 ^ 24 - 1) (2 ^ 8 - 1 - m),
  bit_and-ones 24 (x / 2 ^ 8),
)

-- The upper byte of the swapped word is the lowest byte of the word as it was loaded.
pub swap32-high : (x : ℕ) → swap32 x / 2 ^ 24 ≡ x % 2 ^ 8
unfolding swap32
swap32-high x = omega arith

pub swap32-low : (x : ℕ) → swap32 x % 2 ^ 8 ≡ x / 2 ^ 24 % 2 ^ 8
unfolding swap32
swap32-low x = omega arith
