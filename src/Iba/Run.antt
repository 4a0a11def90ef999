-- ===== src/Iba/Run.antt =====
-- `FIELD_GET`, `FIELD_PREP` and the words of src/iba.h, for a field whose mask is a run of bits.
use libconntrack_cm.Base.{
  ℕ, zero, suc, ◌+◌, ◌-◌, ◌*◌, ◌/◌, ◌%◌, ◌^◌, ◌<◌, ◌≡◌, sym, ap, subst, ◌∙◌, arith,
}
use libconntrack_cm.Base.Runs.{mask-run, pow-add, cut-shift}
use libconntrack_cm.Iba.{Field, trailing_zeros, bf_shf, field_get, field_prep}
use native.Mathlib.Nat.{
  pow-suc, one-le-pow, mul-div_cancel, mod-mod_of_dvd, mul_assoc, dvd-mul_right,
}
use Prim.Native.Nat.{◌∣◌}

-- The widths of words that a field's name can have.
pub data IsWidth : ℕ → Type 0 where
  byte : IsWidth 8
  half : IsWidth 16
  single : IsWidth 32
  double : IsWidth 64

-- A field of `k` bits with `s` bits of its word below it and `t` above.
pub record IsRun (f : Field) (s k t : ℕ) : Type 0 where
  pub width : IsWidth f.num_bits
  pub bits : f.num_bits ≡ s + k + t
  pub mask : f.mask ≡ (2 ^ k - 1) * 2 ^ s
  pub inhabited : 0 < k

trailing_zeros-run : (n s k : ℕ) → s < n → 0 < k → trailing_zeros n ((2 ^ k - 1) * 2 ^ s) ≡ s
unfolding trailing_zeros
trailing_zeros-run zero s k h p = absurd (omega arith)
trailing_zeros-run (suc n) zero zero h p = absurd (omega arith)
trailing_zeros-run (suc n) zero (suc k) h p = ground (arith, pow-suc 2 k, one-le-pow k 2)
trailing_zeros-run (suc n) (suc s) k h p =
    let twice : (2 ^ k - 1) * 2 ^ suc s ≡ (2 ^ k - 1) * 2 ^ s * 2 =
      ap (λ y. (2 ^ k - 1) * y) (pow-suc 2 s) ∙ sym (mul_assoc (2 ^ k - 1) (2 ^ s) 2) in
    let below = trailing_zeros-run n s k (omega arith) p in
    let even : (2 ^ k - 1) * 2 ^ s * 2 % 2 ≡ 0 = omega arith in
    let half : (2 ^ k - 1) * 2 ^ s * 2 / 2 ≡ (2 ^ k - 1) * 2 ^ s = omega arith in
    rw (twice, even, half) (ap (λ y. suc y) below)

bf_shf-run : (s k : ℕ) → s < 64 → 0 < k → bf_shf ((2 ^ k - 1) * 2 ^ s) ≡ s
unfolding bf_shf
bf_shf-run s k h p = trailing_zeros-run 64 s k h p

pub field_get-run :
    (s k x : ℕ) → s < 64 → 0 < k → field_get ((2 ^ k - 1) * 2 ^ s) x ≡ x / 2 ^ s % 2 ^ k
unfolding field_get
field_get-run s k x h p =
    rw (bf_shf-run s k h p, mask-run s k x)
      (mul-div_cancel (x / 2 ^ s % 2 ^ k) (one-le-pow s 2 (omega arith)))

pub field_prep-run :
    (s k m v : ℕ)
    → s + (k + m) ≡ 64
    → s < 64
    → 0 < k
    → field_prep ((2 ^ k - 1) * 2 ^ s) v ≡ v % 2 ^ k * 2 ^ s
unfolding field_prep
field_prep-run s k m v e h p =
    let cut : v * 2 ^ s % 2 ^ 64 / 2 ^ s ≡ v % 2 ^ (k + m) =
      ap (λ w. v * 2 ^ s % 2 ^ w / 2 ^ s) (sym e)
      ∙ cut-shift s (k + m) (v * 2 ^ s)
      ∙ ap (λ y. y % 2 ^ (k + m)) (mul-div_cancel v (one-le-pow s 2 (omega arith))) in
    rw (bf_shf-run s k h p, mask-run s k (v * 2 ^ s % 2 ^ 64), cut)
      (ap (λ y. y * 2 ^ s)
        (mod-mod_of_dvd (2 ^ k) v
          (subst (λ b. 2 ^ k ∣ b) (sym (pow-add k m)) (dvd-mul_right (2 ^ k) (2 ^ m)))))
