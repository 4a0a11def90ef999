-- ===== src/Iba/Assign.antt =====
-- `IBA_SET` on a word: what becomes of the field's bits, of the other bits of its word, and of the other bytes.
use libconntrack_cm.Base.{
  ℕ, ◌+◌, ◌-◌, ◌*◌, ◌/◌, ◌%◌, ◌^◌, ◌<◌, ◌≤◌, ◌⊎◌, ◌≡◌, refl, sym, ap, subst, ◌∙◌, bit_and, arith,
}
use libconntrack_cm.Base.Bits.{bit_and-lt, bit_or-lt}
use libconntrack_cm.Base.Runs.{word, word-run, run-lt, run-word-lt, word-replace}
use libconntrack_cm.Packet.Memory.{Bytes, IsBytes}
use libconntrack_cm.Iba.{Field, field_prep, iba_get, iba_get_word}
use libconntrack_cm.Iba.Set.{replaced, iba_set}
use libconntrack_cm.Iba.Run.{
  IsWidth, byte, half, single, double, IsRun, field_get-run, field_prep-run,
}
use libconntrack_cm.Iba.Word.{iba_get_word-lt, set_word-cut, iba_set_word-outside, set_word-IsBytes}
use native.Mathlib.Nat.{mod-eq_of_lt, one-le-pow, pow-le-pow_right}

width-le : {w : ℕ} → IsWidth w → w ≤ 64
width-le byte = omega arith
width-le half = omega arith
width-le single = omega arith
width-le double = omega arith

-- The numbers of a run, in a word of any name for its width.
module _ (w s k t : ℕ) (e : w ≡ s + k + t) where
  run-fits : (v : ℕ) → v < 2 ^ k → v * 2 ^ s < 2 ^ w
  run-fits v h = subst (λ y. v * 2 ^ s < 2 ^ y) (sym e) (run-word-lt s k t v h)

  replaced-word :
      (x v : ℕ)
      → x < 2 ^ w
      → v < 2 ^ k
      → replaced w x ((2 ^ k - 1) * 2 ^ s) (v * 2 ^ s) % 2 ^ w
        ≡ word s k (x / 2 ^ s / 2 ^ k) v (x % 2 ^ s)
  replaced-word x v lt vk =
      let fits =
        bit_or-lt w (bit_and x (2 ^ w - 1 - (2 ^ k - 1) * 2 ^ s)) (v * 2 ^ s) (bit_and-lt w x _ lt)
          (run-fits v vk) in
      mod-eq_of_lt fits
      ∙ ap (λ y. replaced y x ((2 ^ k - 1) * 2 ^ s) (v * 2 ^ s)) e
      ∙ word-replace s k t x v (subst (λ y. x < 2 ^ y) e lt) vk

module _ (f : Field) (s k t : ℕ) (run : IsRun f s k t) where
  below : s + (k + (64 - (s + k))) ≡ 64
  below = omega (arith, width-le run.width, run.bits)

  small : s < 64
  small = omega (arith, width-le run.width, run.bits, run.inhabited)

  prepared : (v : ℕ) → field_prep ((2 ^ k - 1) * 2 ^ s) v ≡ v % 2 ^ k * 2 ^ s
  prepared v = field_prep-run s k (64 - (s + k)) v below small run.inhabited

  pub iba_get-word :
      (m : Bytes) (ptr : ℕ)
      → iba_get f m ptr
        ≡ iba_get_word f.num_bits m (ptr + f.offset) / 2 ^ s % 2 ^ k % 2 ^ f.num_bits
  unfolding iba_get
  iba_get-word m ptr = rw (run.mask, field_get-run s k _ small run.inhabited) refl

  -- The word after the field is set.
  pub iba_set-word :
      (m : Bytes) (ptr v : ℕ)
      → IsBytes m
      → (let x = iba_get_word f.num_bits m (ptr + f.offset) in
          iba_get_word f.num_bits (iba_set f m ptr v) (ptr + f.offset)
          ≡ word s k (x / 2 ^ s / 2 ^ k) (v % 2 ^ k) (x % 2 ^ s))
  unfolding iba_set
  iba_set-word m ptr v b =
      let a = ptr + f.offset in
      let x = iba_get_word f.num_bits m a in
      let lt = iba_get_word-lt f.num_bits m a run.width b in
      let cut = mod-eq_of_lt (
        run-fits f.num_bits s k t run.bits (2 ^ k - 1)
          (omega (arith, one-le-pow k 2 (omega arith)))) in
      let prep = mod-eq_of_lt (run-fits f.num_bits s k t run.bits (v % 2 ^ k) (run-lt k v)) in
      rw (run.mask, cut, prepared v, prep)
        (set_word-cut f.num_bits m a _ _ run.width
          ∙ replaced-word f.num_bits s k t run.bits x (v % 2 ^ k) lt (run-lt k v))

  run-cut : (v : ℕ) → v % 2 ^ k % 2 ^ f.num_bits ≡ v % 2 ^ k
  run-cut v =
      let wider : 2 ^ k ≤ 2 ^ f.num_bits =
        pow-le-pow_right (omega arith) (omega (arith, run.bits)) in
      mod-eq_of_lt (omega (arith, run-lt k v))

  pub iba_get-iba_set :
      (m : Bytes) (ptr v : ℕ) → IsBytes m → iba_get f (iba_set f m ptr v) ptr ≡ v % 2 ^ k
  iba_get-iba_set m ptr v b =
      let x = iba_get_word f.num_bits m (ptr + f.offset) in
      rw (iba_get-word (iba_set f m ptr v) ptr, iba_set-word m ptr v b)
        (ap (λ y. y % 2 ^ f.num_bits)
            (word-run s k (x / 2 ^ s / 2 ^ k) (v % 2 ^ k) (x % 2 ^ s) (run-lt k v) (run-lt s x))
          ∙ run-cut v)

  pub iba_set-outside :
      (m : Bytes) (ptr v i : ℕ)
      → i < ptr + f.offset ⊎ ptr + f.offset + f.num_bits / 8 ≤ i
      → iba_set f m ptr v i ≡ m i
  unfolding iba_set
  iba_set-outside m ptr v i h = iba_set_word-outside f.num_bits m (ptr + f.offset) _ _ i run.width h

pub iba_set-IsBytes :
    (f : Field) (m : Bytes) (ptr v : ℕ)
    → IsWidth f.num_bits
    → IsBytes m
    → IsBytes (iba_set f m ptr v)
unfolding iba_set
iba_set-IsBytes f m ptr v width b = set_word-IsBytes f.num_bits m (ptr + f.offset) _ _ width b
