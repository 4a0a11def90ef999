-- ===== src/Iba/Bit.antt =====
-- The bits of a packet, from the highest bit of its first byte on: which of them a word and a field hold.
use libconntrack_cm.Base.{
  ℕ, zero, suc, ◌+◌, ◌-◌, ◌*◌, ◌/◌, ◌%◌, ◌^◌, ◌<◌, ◌≤◌, inl, inr, ◌≡◌, refl, sym, ap, ◌∙◌, arith,
  Bool-cases, ltb,
}
use native.Mathlib.Nat.{add-zero}
use libconntrack_cm.Base.Runs.Bits.{byte-low, byte-high}
use libconntrack_cm.Packet.Memory.{Bytes, IsBytes, swap16-load16, swap32-load32}
use libconntrack_cm.Packet.Network.{read_be16, read_be32}
use libconntrack_cm.Iba.{iba_get8, iba_get_word}
use libconntrack_cm.Iba.Run.{IsWidth, byte, half, single, double}
use libconntrack_cm.Iba.Word.{iba_get16-read, iba_get32-read, iba_get64-read}

unfoldable pub bit_at : Bytes → ℕ → ℕ
bit_at m p = m (p / 8) / 2 ^ (7 - p % 8) % 2

-- A number of `len` bytes in network order.
be : ℕ → Bytes → ℕ → ℕ
be zero m a = 0
be (suc len) m a = be len m a * 2 ^ 8 + m (a + len)

bit_at-byte : (m : Bytes) (a i : ℕ) → i < 8 → bit_at m (8 * a + (7 - i)) ≡ m a / 2 ^ i % 2
unfolding bit_at
bit_at-byte m a i h =
    let index : (8 * a + (7 - i)) / 8 ≡ a = omega arith in
    let place : 7 - (8 * a + (7 - i)) % 8 ≡ i = omega arith in rw (index, place) refl

be-bit :
    (len : ℕ) (m : Bytes) (a i : ℕ)
    → IsBytes m
    → i < 8 * len
    → be len m a / 2 ^ i % 2 ≡ bit_at m (8 * a + (8 * len - 1 - i))
unfolding be
be-bit zero m a i b h = absurd (omega arith)
be-bit (suc len) m a i b h = elim (Bool-cases (ltb i 8)) [
  | inl low ↦
      let lt : i < 8 = ground arith in
      let place : 8 * (a + len) + (7 - i) ≡ 8 * a + (8 * suc len - 1 - i) = omega arith in
      byte-low (be len m a) (m (a + len)) i (b (a + len)) lt
      ∙ sym (bit_at-byte m (a + len) i lt)
      ∙ ap (bit_at m) place
  | inr high ↦
      let le : 8 ≤ i = ground arith in
      let split : 8 + (i - 8) ≡ i = omega arith in
      let place : 8 * a + (8 * len - 1 - (i - 8)) ≡ 8 * a + (8 * suc len - 1 - i) = omega arith in
      ap (λ n. (be len m a * 2 ^ 8 + m (a + len)) / 2 ^ n % 2) (sym split)
      ∙ ap (λ y. y % 2) (byte-high (be len m a) (m (a + len)) (i - 8) (b (a + len)))
      ∙ be-bit len m a (i - 8) b (omega arith)
      ∙ ap (bit_at m) place
]

pub width-whole : {w : ℕ} → IsWidth w → 8 * (w / 8) ≡ w
width-whole byte = refl
width-whole half = refl
width-whole single = refl
width-whole double = refl

iba_get_word-be :
    (w : ℕ) (m : Bytes) (a : ℕ) → IsWidth w → IsBytes m → iba_get_word w m a ≡ be (w / 8) m a
unfolding iba_get_word iba_get8 be
iba_get_word-be w m a byte b = omega (arith, ap m (add-zero a))
iba_get_word-be w m a half b =
    rw (iba_get16-read m a)
      (unfold read_be16 in omega (arith, swap16-load16 m a b, ap m (add-zero a)))
iba_get_word-be w m a single b =
    rw (iba_get32-read m a)
      (unfold read_be32 in omega (arith, swap32-load32 m a b, ap m (add-zero a)))
iba_get_word-be w m a double b =
    let fifth : a + 4 + 1 ≡ a + 5 = omega arith in
    let sixth : a + 4 + 2 ≡ a + 6 = omega arith in
    let seventh : a + 4 + 3 ≡ a + 7 = omega arith in
    rw (iba_get64-read m a) (
      unfold read_be32 in
      omega (
        arith,
        swap32-load32 m a b,
        swap32-load32 m (a + 4) b,
        ap m (add-zero a),
        ap m fifth,
        ap m sixth,
        ap m seventh,
      ))

-- The bit `i` of a word of `w` bits at `a`.
pub iba_get_word-bit :
    (w : ℕ) (m : Bytes) (a i : ℕ)
    → IsWidth w
    → IsBytes m
    → i < w
    → iba_get_word w m a / 2 ^ i % 2 ≡ bit_at m (8 * a + (w - 1 - i))
iba_get_word-bit w m a i width b h =
    let whole : 8 * (w / 8) ≡ w = width-whole width in
    rw (iba_get_word-be w m a width b) (
      be-bit (w / 8) m a i b (omega (arith, whole))
      ∙ ap (λ y. bit_at m (8 * a + (y - 1 - i))) whole)
