-- ===== src/Packet/Memory.antt =====
-- Memory as bytes, on a little-endian host: what a load of a `u16` or `u32` gives, and the byte
-- swaps that `ntohs`, `ntohl`, `be16toh` and `be32toh` are there.
use libconntrack_cm.Base.{ℕ, ◌+◌, ◌*◌, ◌/◌, ◌%◌, ◌^◌, ◌<◌, ◌≤◌, ◌⊎◌, ◌≡◌, arith, update}

abbrev pub Bytes : Type 0
Bytes = ℕ → ℕ

unfoldable pub load16 : Bytes → ℕ → ℕ
load16 m a = m a + m (a + 1) * 2 ^ 8

unfoldable pub load32 : Bytes → ℕ → ℕ
load32 m a = m a + m (a + 1) * 2 ^ 8 + m (a + 2) * 2 ^ 16 + m (a + 3) * 2 ^ 24

unfoldable pub swap16 : ℕ → ℕ
swap16 x = x % 2 ^ 8 * 2 ^ 8 + x / 2 ^ 8 % 2 ^ 8

unfoldable pub swap32 : ℕ → ℕ
swap32 x =
    x % 2 ^ 8 * 2 ^ 24
    + x / 2 ^ 8 % 2 ^ 8 * 2 ^ 16
    + x / 2 ^ 16 % 2 ^ 8 * 2 ^ 8
    + x / 2 ^ 24 % 2 ^ 8

-- Stores of a `u8`, a `u16` and a `u32`.
unfoldable pub store8 : Bytes → ℕ → ℕ → Bytes
store8 m a v = update m a (v % 2 ^ 8)

unfoldable pub store16 : Bytes → ℕ → ℕ → Bytes
unfolding store8
store16 m a v = store8 (store8 m a v) (a + 1) (v / 2 ^ 8)

unfoldable pub store32 : Bytes → ℕ → ℕ → Bytes
unfolding store16
store32 m a v = store16 (store16 m a v) (a + 2) (v / 2 ^ 16)

-- The numbers that two, three and four bytes in network order stand for.
abbrev pub be16 : Bytes → ℕ → ℕ
be16 m a = m a * 2 ^ 8 + m (a + 1)

abbrev pub be24 : Bytes → ℕ → ℕ
be24 m a = m a * 2 ^ 16 + m (a + 1) * 2 ^ 8 + m (a + 2)

abbrev pub be32 : Bytes → ℕ → ℕ
be32 m a = m a * 2 ^ 24 + m (a + 1) * 2 ^ 16 + m (a + 2) * 2 ^ 8 + m (a + 3)

-- Every cell of a memory is a byte.
abbrev pub IsBytes : Bytes → Type 0
IsBytes m = (a : ℕ) → m a < 2 ^ 8

pub swap32-swap32 : (x : ℕ) → x < 2 ^ 32 → swap32 (swap32 x) ≡ x
unfolding swap32
swap32-swap32 x h = omega arith

pub swap32-lt : (x : ℕ) → swap32 x < 2 ^ 32
unfolding swap32
swap32-lt x = omega arith

pub swap16-swap16 : (x : ℕ) → x < 2 ^ 16 → swap16 (swap16 x) ≡ x
unfolding swap16
swap16-swap16 x h = omega arith

pub swap16-lt : (x : ℕ) → swap16 x < 2 ^ 16
unfolding swap16
swap16-lt x = omega arith

-- A load followed by the swap reads the bytes in network order.
pub swap16-load16 : (m : Bytes) (a : ℕ) → IsBytes m → swap16 (load16 m a) ≡ be16 m a
unfolding swap16 load16
swap16-load16 m a b = omega (arith, b a, b (a + 1))

pub swap32-load32 : (m : Bytes) (a : ℕ) → IsBytes m → swap32 (load32 m a) ≡ be32 m a
unfolding swap32 load32
swap32-load32 m a b = omega (arith, b a, b (a + 1), b (a + 2), b (a + 3))

pub load32-lt : (m : Bytes) (a : ℕ) → IsBytes m → load32 m a < 2 ^ 32
unfolding load32
load32-lt m a b = omega (arith, b a, b (a + 1), b (a + 2), b (a + 3))

pub load16-lt : (m : Bytes) (a : ℕ) → IsBytes m → load16 m a < 2 ^ 16
unfolding load16
load16-lt m a b = omega (arith, b a, b (a + 1))

-- Stores and loads of a word.
pub load32-store32 : (m : Bytes) (a v : ℕ) → v < 2 ^ 32 → load32 (store32 m a v) a ≡ v
unfolding load32 store32
load32-store32 m a v h = ground arith

pub load32-store32_above :
    (m : Bytes) (a b v : ℕ) → a + 4 ≤ b → load32 (store32 m b v) a ≡ load32 m a
unfolding load32 store32
load32-store32_above m a b v h = ground arith

pub load16-store32_above :
    (m : Bytes) (a b v : ℕ) → a + 2 ≤ b → load16 (store32 m b v) a ≡ load16 m a
unfolding load16 store32
load16-store32_above m a b v h = ground arith

pub load32-store32_below :
    (m : Bytes) (a b v : ℕ) → b + 4 ≤ a → load32 (store32 m b v) a ≡ load32 m a
unfolding load32 store32
load32-store32_below m a b v h = ground arith

pub store32-outside : (m : Bytes) (a v i : ℕ) → i < a ⊎ a + 4 ≤ i → store32 m a v i ≡ m i
unfolding store32
store32-outside m a v i h = ground arith

pub store32-IsBytes : (m : Bytes) (a v : ℕ) → IsBytes m → IsBytes (store32 m a v)
unfolding store32
store32-IsBytes m a v b i = ground (arith, b i)
