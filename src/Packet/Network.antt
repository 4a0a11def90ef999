-- ===== src/Packet/Network.antt =====
-- Words in network order: `ntohl`, `be64toh` and the other conversions of a word that is loaded from memory,
-- and of a word that is stored, on a little-endian host.
use libconntrack_cm.Base.{
  ℕ, ◌+◌, ◌*◌, ◌/◌, ◌%◌, ◌^◌, ◌<◌, ◌≤◌, ◌⊎◌, ◌≡◌, refl, ap, fun_ext, ◌∙◌, arith,
}
use libconntrack_cm.Packet.Memory.{
  Bytes, load16, load32, store16, store32, swap16, swap32, swap32-lt, load32-store32,
  store32-outside, store32-IsBytes, IsBytes,
}

unfoldable pub load64 : Bytes → ℕ → ℕ
load64 m a = load32 m a + load32 m (a + 4) * 2 ^ 32

unfoldable pub swap64 : ℕ → ℕ
swap64 x = swap32 x * 2 ^ 32 + swap32 (x / 2 ^ 32)

unfoldable pub store64 : Bytes → ℕ → ℕ → Bytes
store64 m a v = store32 (store32 m a v) (a + 4) (v / 2 ^ 32)

-- A word of the memory, read and written in network order.
unfoldable pub read_be16 : Bytes → ℕ → ℕ
read_be16 m a = swap16 (load16 m a)

unfoldable pub read_be32 : Bytes → ℕ → ℕ
read_be32 m a = swap32 (load32 m a)

unfoldable pub read_be64 : Bytes → ℕ → ℕ
unfolding load64 swap64
read_be64 m a = swap64 (load64 m a)

unfoldable pub write_be16 : Bytes → ℕ → ℕ → Bytes
write_be16 m a v = store16 m a (swap16 v)

unfoldable pub write_be32 : Bytes → ℕ → ℕ → Bytes
write_be32 m a v = store32 m a (swap32 v)

unfoldable pub write_be64 : Bytes → ℕ → ℕ → Bytes
unfolding swap64 store64
write_be64 m a v = store64 m a (swap64 v)

-- Two swaps cut a number down to the width of the word.
pub swap16_twice : (x : ℕ) → swap16 (swap16 x) ≡ x % 2 ^ 16
unfolding swap16
swap16_twice x = omega arith

swap16_bytes : (v : ℕ) → swap16 (swap16 v % 2 ^ 8 + swap16 v / 2 ^ 8 % 2 ^ 8 * 2 ^ 8) ≡ v % 2 ^ 16
unfolding swap16
swap16_bytes v = omega arith

swap32_twice : (x : ℕ) → swap32 (swap32 x) ≡ x % 2 ^ 32
unfolding swap32
swap32_twice x = omega arith

-- A word depends on its own bytes alone.
abbrev pub Agrees : ℕ → ℕ → Bytes → Bytes → Type 0
Agrees a size m n = (i : ℕ) → a ≤ i → i < a + size → m i ≡ n i

pub load32-Agrees : (m n : Bytes) (a : ℕ) → Agrees a 4 m n → load32 m a ≡ load32 n a
unfolding load32
load32-Agrees m n a e =
    let e0 = e a (omega arith) (omega arith) in
    let e1 = e (a + 1) (omega arith) (omega arith) in
    let e2 = e (a + 2) (omega arith) (omega arith) in
    let e3 = e (a + 3) (omega arith) (omega arith) in omega arith

pub read_be16-Agrees : (m n : Bytes) (a : ℕ) → Agrees a 2 m n → read_be16 m a ≡ read_be16 n a
unfolding read_be16 load16
read_be16-Agrees m n a e =
    rw (e a (omega arith) (omega arith), e (a + 1) (omega arith) (omega arith)) refl

pub read_be32-Agrees : (m n : Bytes) (a : ℕ) → Agrees a 4 m n → read_be32 m a ≡ read_be32 n a
unfolding read_be32
read_be32-Agrees m n a e = ap swap32 (load32-Agrees m n a e)

pub read_be64-Agrees : (m n : Bytes) (a : ℕ) → Agrees a 8 m n → read_be64 m a ≡ read_be64 n a
unfolding read_be64 load64
read_be64-Agrees m n a e =
    let low = load32-Agrees m n a (λ i h l. e i h (omega arith)) in
    let high = load32-Agrees m n (a + 4) (λ i h l. e i (omega arith) (omega arith)) in
    rw (low, high) refl

-- A word reads as it was written, cut to its width.
pub read_be32-write_be32 : (m : Bytes) (a v : ℕ) → read_be32 (write_be32 m a v) a ≡ v % 2 ^ 32
unfolding read_be32 write_be32
read_be32-write_be32 m a v = rw (load32-store32 m a (swap32 v) (swap32-lt v)) (swap32_twice v)

pub read_be16-write_be16 : (m : Bytes) (a v : ℕ) → read_be16 (write_be16 m a v) a ≡ v % 2 ^ 16
unfolding read_be16 write_be16 load16 store16
read_be16-write_be16 m a v =
    let low : store16 m a (swap16 v) a ≡ swap16 v % 2 ^ 8 = ground arith in
    let high : store16 m a (swap16 v) (a + 1) ≡ swap16 v / 2 ^ 8 % 2 ^ 8 = ground arith in
    rw (low, high) (swap16_bytes v)

pub write_be16-outside : (m : Bytes) (a v i : ℕ) → i < a ⊎ a + 2 ≤ i → write_be16 m a v i ≡ m i
unfolding write_be16 store16
write_be16-outside m a v i h = ground arith

pub write_be16-IsBytes : (m : Bytes) (a v : ℕ) → IsBytes m → IsBytes (write_be16 m a v)
unfolding write_be16 store16
write_be16-IsBytes m a v b i = ground (arith, b i)

pub write_be32-IsBytes : (m : Bytes) (a v : ℕ) → IsBytes m → IsBytes (write_be32 m a v)
unfolding write_be32
write_be32-IsBytes m a v b = store32-IsBytes m a (swap32 v) b

pub write_be32-outside : (m : Bytes) (a v i : ℕ) → i < a ⊎ a + 4 ≤ i → write_be32 m a v i ≡ m i
unfolding write_be32
write_be32-outside m a v i h = store32-outside m a (swap32 v) i h

-- The halves of a word of 64 bits, the upper one first.
swap64-low : (v : ℕ) → swap64 v % 2 ^ 32 ≡ swap32 (v / 2 ^ 32)
unfolding swap64
swap64-low v = omega (arith, swap32-lt (v / 2 ^ 32))

swap64-high : (v : ℕ) → swap64 v / 2 ^ 32 ≡ swap32 v
unfolding swap64
swap64-high v = omega (arith, swap32-lt (v / 2 ^ 32))

store32_cut : (m : Bytes) (a v : ℕ) → store32 m a v ≡ store32 m a (v % 2 ^ 32)
unfolding store32
store32_cut m a v = fun_ext λ i. ground arith

pub load32-store32_cut : (m : Bytes) (a v : ℕ) → load32 (store32 m a v) a ≡ v % 2 ^ 32
load32-store32_cut m a v = rw (store32_cut m a v) (load32-store32 m a (v % 2 ^ 32) (omega arith))

pub write_be64-halves :
    (m : Bytes) (a v : ℕ) → write_be64 m a v ≡ write_be32 (write_be32 m a (v / 2 ^ 32)) (a + 4) v
unfolding write_be64 write_be32 store64
write_be64-halves m a v = rw (store32_cut m a (swap64 v), swap64-low v, swap64-high v) refl

pub write_be64-outside : (m : Bytes) (a v i : ℕ) → i < a ⊎ a + 8 ≤ i → write_be64 m a v i ≡ m i
write_be64-outside m a v i h =
    let first = write_be32 m a (v / 2 ^ 32) in
    rw (write_be64-halves m a v) (
      write_be32-outside first (a + 4) v i (ground arith)
      ∙ write_be32-outside m a (v / 2 ^ 32) i (ground arith))

-- The two halves of a word of 64 bits, swapped each on its own.
swap64-join : (l h : ℕ) → l < 2 ^ 32 → swap64 (l + h * 2 ^ 32) ≡ swap32 l * 2 ^ 32 + swap32 h
unfolding swap64 swap32
swap64-join l h lt = omega arith

halves_twice : (v : ℕ) → swap32 (swap32 (v / 2 ^ 32)) * 2 ^ 32 + swap32 (swap32 v) ≡ v % 2 ^ 64
halves_twice v = rw (swap32_twice (v / 2 ^ 32), swap32_twice v) (omega arith)

pub read_be64-write_be64 : (m : Bytes) (a v : ℕ) → read_be64 (write_be64 m a v) a ≡ v % 2 ^ 64
unfolding read_be64 load64 write_be32
read_be64-write_be64 m a v =
    let first = write_be32 m a (v / 2 ^ 32) in
    let low : load32 (write_be32 first (a + 4) v) a ≡ swap32 (v / 2 ^ 32) =
      load32-Agrees (write_be32 first (a + 4) v) first a
        (λ i h l. write_be32-outside first (a + 4) v i (ground arith))
      ∙ load32-store32 m a (swap32 (v / 2 ^ 32)) (swap32-lt (v / 2 ^ 32)) in
    let high : load32 (write_be32 first (a + 4) v) (a + 4) ≡ swap32 v =
      load32-store32 first (a + 4) (swap32 v) (swap32-lt v) in
    rw
      (
        write_be64-halves m a v,
        low,
        high,
        swap64-join (swap32 (v / 2 ^ 32)) (swap32 v) (swap32-lt (v / 2 ^ 32)),
      )
      (halves_twice v)

-- A read of bytes that a write leaves alone.
module _ (m : Bytes) (a b v : ℕ) where
  pub read_be32-write_be32_apart :
      a + 4 ≤ b ⊎ b + 4 ≤ a → read_be32 (write_be32 m b v) a ≡ read_be32 m a
  read_be32-write_be32_apart h =
      read_be32-Agrees (write_be32 m b v) m a (λ i l u. write_be32-outside m b v i (ground arith))

  pub read_be32-write_be64_apart :
      a + 4 ≤ b ⊎ b + 8 ≤ a → read_be32 (write_be64 m b v) a ≡ read_be32 m a
  read_be32-write_be64_apart h =
      read_be32-Agrees (write_be64 m b v) m a (λ i l u. write_be64-outside m b v i (ground arith))

  pub read_be64-write_be32_apart :
      a + 8 ≤ b ⊎ b + 4 ≤ a → read_be64 (write_be32 m b v) a ≡ read_be64 m a
  read_be64-write_be32_apart h =
      read_be64-Agrees (write_be32 m b v) m a (λ i l u. write_be32-outside m b v i (ground arith))

  pub read_be64-write_be64_apart :
      a + 8 ≤ b ⊎ b + 8 ≤ a → read_be64 (write_be64 m b v) a ≡ read_be64 m a
  read_be64-write_be64_apart h =
      read_be64-Agrees (write_be64 m b v) m a (λ i l u. write_be64-outside m b v i (ground arith))
