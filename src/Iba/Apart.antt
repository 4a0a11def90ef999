-- ===== src/Iba/Apart.antt =====
-- Two fields that share no bit: `IBA_SET` of one does not change what `IBA_GET` reads of the other.
use libconntrack_cm.Base.{
  ℕ, ◌+◌, ◌-◌, ◌*◌, ◌/◌, ◌%◌, ◌^◌, ◌≤◌, ◌<◌, ◌⊎◌, inl, inr, ◌≡◌, refl, sym, ap, ◌∙◌, arith,
  Bool-cases, ltb, not, ◌&&◌,
}
use libconntrack_cm.Base.Runs.{word, run-lt}
use libconntrack_cm.Base.Runs.Apart.{below-same, above-same, word-above, word-below}
use libconntrack_cm.Base.Runs.Bits.{run-same}
use libconntrack_cm.Packet.Memory.{Bytes, IsBytes}
use libconntrack_cm.Iba.{Field, iba_get, iba_get_word}
use libconntrack_cm.Iba.Set.{iba_set}
use libconntrack_cm.Iba.Run.{IsRun}
use libconntrack_cm.Iba.Bit.{bit_at, width-whole, iba_get_word-bit}
use libconntrack_cm.Iba.Assign.{
  iba_get-word, iba_set-word, iba_set-outside, iba_get-iba_set, iba_set-IsBytes,
}

-- The bits of the message that a field holds, a run of `k` bits with `s` bits of its word below it: from the first
-- one up to the last, counted from the highest bit of the message's first byte.
abbrev pub first_bit : Field → ℕ → ℕ → ℕ
first_bit f s k = 8 * f.offset + (f.num_bits - s - k)

abbrev pub end_bit : Field → ℕ → ℕ
end_bit f s = 8 * f.offset + (f.num_bits - s)

-- Two fields that share no bit of the message: one ends before the other starts.
abbrev pub IsApart : Field → ℕ → ℕ → Field → ℕ → ℕ → Type 0
IsApart f s k g i j = end_bit g i ≤ first_bit f s k ⊎ end_bit f s ≤ first_bit g i j

-- Another run of the word, below or above the one that is replaced.
word-apart :
    (s k x v i j : ℕ)
    → i + j ≤ s ⊎ s + k ≤ i
    → word s k (x / 2 ^ s / 2 ^ k) (v % 2 ^ k) (x % 2 ^ s) / 2 ^ i % 2 ^ j ≡ x / 2 ^ i % 2 ^ j
word-apart s k x v i j (inl below) =
    below-same i j s _ x below
      (word-below s k (x / 2 ^ s / 2 ^ k) (v % 2 ^ k) (x % 2 ^ s) (run-lt s x))
word-apart s k x v i j (inr above) =
    ap (λ y. y % 2 ^ j)
      (above-same i s k _ x above
        (word-above s k (x / 2 ^ s / 2 ^ k) (v % 2 ^ k) (x % 2 ^ s) (run-lt k v) (run-lt s x)))

module _ (f : Field) (s k t : ℕ) (set : IsRun f s k t) (m : Bytes) (ptr v : ℕ) (b : IsBytes m) where
  abbrev after : Bytes
  after = iba_set f m ptr v

  -- A bit of the field's word that the field does not hold.
  word_bit-kept :
      (n : ℕ)
      → n < f.num_bits
      → n < s ⊎ s + k ≤ n
      → bit_at after (8 * (ptr + f.offset) + (f.num_bits - 1 - n))
        ≡ bit_at m (8 * (ptr + f.offset) + (f.num_bits - 1 - n))
  word_bit-kept n h apart =
      let a = ptr + f.offset in
      sym
        (iba_get_word-bit f.num_bits after a n set.width (iba_set-IsBytes f m ptr v set.width b) h)
      ∙ ap (λ x. x / 2 ^ n % 2) (iba_set-word f s k t set m ptr v b)
      ∙ word-apart s k (iba_get_word f.num_bits m a) v n 1 (ground (arith, apart))
      ∙ iba_get_word-bit f.num_bits m a n set.width b h

  -- A bit of another byte.
  byte_bit-kept :
      (p : ℕ)
      → p < 8 * (ptr + f.offset) ⊎ 8 * (ptr + f.offset) + f.num_bits ≤ p
      → bit_at after p ≡ bit_at m p
  unfolding bit_at
  byte_bit-kept p apart =
      rw
        (iba_set-outside f s k t set m ptr v (p / 8) (ground (arith, apart, width-whole set.width)))
        refl

  -- Setting a field changes no bit that the field does not hold.
  pub iba_set-bit_at :
      (p : ℕ)
      → p < 8 * ptr + first_bit f s k ⊎ 8 * ptr + end_bit f s ≤ p
      → bit_at after p ≡ bit_at m p
  iba_set-bit_at p apart =
      elim (Bool-cases
        (not (ltb p (8 * (ptr + f.offset))) && ltb p (8 * (ptr + f.offset) + f.num_bits))) [
          | inl within ↦
              let n = 8 * (ptr + f.offset) + f.num_bits - 1 - p in
              let above : 8 * (ptr + f.offset) ≤ p = ground arith in
              let below : p < 8 * (ptr + f.offset) + f.num_bits = ground arith in
              let place : 8 * (ptr + f.offset) + (f.num_bits - 1 - n) ≡ p = omega arith in
              ap (bit_at after) (sym place)
              ∙ word_bit-kept n (omega arith) (ground (arith, apart, set.bits, set.inhabited))
              ∙ ap (bit_at m) place
          | inr outside ↦ byte_bit-kept p (ground arith)
        ]

-- A field is its bits.
iba_get-same :
    (g : Field) (i j r : ℕ) (m n : Bytes) (ptr : ℕ)
    → IsRun g i j r
    → IsBytes m
    → IsBytes n
    → ((p : ℕ)
        → 8 * ptr + first_bit g i j ≤ p
        → p < 8 * ptr + end_bit g i
        → bit_at m p ≡ bit_at n p)
    → iba_get g m ptr ≡ iba_get g n ptr
iba_get-same g i j r m n ptr get bm bn same =
    let a = ptr + g.offset in
    rw (iba_get-word g i j r get m ptr, iba_get-word g i j r get n ptr)
      (ap (λ y. y % 2 ^ g.num_bits)
        (run-same i j (iba_get_word g.num_bits m a) (iba_get_word g.num_bits n a) λ c h.
          let inside : i + c < g.num_bits = omega (arith, get.bits) in
          iba_get_word-bit g.num_bits m a (i + c) get.width bm inside
          ∙ same (8 * a + (g.num_bits - 1 - (i + c))) (omega (arith, get.bits))
              (omega (arith, get.bits))
          ∙ sym (iba_get_word-bit g.num_bits n a (i + c) get.width bn inside)))

-- In a message of bytes, with two fields whose masks are runs of bits: a field that is set reads as the value, cut to
-- the field's `k` bits, and a field that holds no bit of it reads as before, whatever the words of the two fields.
pub iba_set-assigns :
    (f g : Field) (s k t i j r : ℕ) (m : Bytes) (ptr v : ℕ)
    → IsRun f s k t
    → IsRun g i j r
    → IsBytes m
    → IsApart f s k g i j
    → (iba_get f (iba_set f m ptr v) ptr ≡ v % 2 ^ k)
      × (iba_get g (iba_set f m ptr v) ptr ≡ iba_get g m ptr)
iba_set-assigns f g s k t i j r m ptr v set get b apart = (
  iba_get-iba_set f s k t set m ptr v b,
  iba_get-same g i j r (iba_set f m ptr v) m ptr get (iba_set-IsBytes f m ptr v set.width b) b
      λ p from to. iba_set-bit_at f s k t set m ptr v b p (ground (arith, apart)),
)
