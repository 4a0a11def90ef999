-- ===== src/Base/Runs/Apart.antt =====
-- A run of bits reads the same in two numbers that agree on the bits below some place, or above it.
use Prim.Native.Nat.{ℕ, ◌+◌, ◌-◌, ◌*◌, ◌/◌, ◌%◌, ◌^◌, ◌≤◌, ◌<◌, ◌∣◌}
use mathlib.Core.Path.{◌≡◌, refl, sym, ap, subst, ◌∙◌}
use native.Mathlib.Nat.{
  mod-mod_of_dvd, dvd-mul_right, div-div-eq-div-mul, div-eq_of_lt, mul-add-div_right,
  mul-add-mod_self_right, mod-eq_of_lt, one-le-pow, add-zero,
}
use native.Mathlib.Omega.{arith}
use libconntrack_cm.Base.Runs.{word, cut-shift, pow-add}

pub mod-narrow : (k m v : ℕ) → v % 2 ^ (k + m) % 2 ^ k ≡ v % 2 ^ k
mod-narrow k m v =
    mod-mod_of_dvd (2 ^ k) v
      (subst (λ b. 2 ^ k ∣ b) (sym (pow-add k m)) (dvd-mul_right (2 ^ k) (2 ^ m)))

-- The run, read from the bits below `s`.
below-read : (i j d x : ℕ) → x % 2 ^ (i + (j + d)) / 2 ^ i % 2 ^ j ≡ x / 2 ^ i % 2 ^ j
below-read i j d x = ap (λ y. y % 2 ^ j) (cut-shift i (j + d) x) ∙ mod-narrow j d (x / 2 ^ i)

pub below-same :
    (i j s x y : ℕ) → i + j ≤ s → x % 2 ^ s ≡ y % 2 ^ s → x / 2 ^ i % 2 ^ j ≡ y / 2 ^ i % 2 ^ j
below-same i j s x y le e =
    let split : i + (j + (s - (i + j))) ≡ s = omega arith in
    sym (below-read i j (s - (i + j)) x)
    ∙ ap (λ y. y / 2 ^ i % 2 ^ j) (subst (λ p. x % 2 ^ p ≡ y % 2 ^ p) (sym split) e)
    ∙ below-read i j (s - (i + j)) y

above-read : (s k d x : ℕ) → x / 2 ^ (s + k + d) ≡ x / 2 ^ s / 2 ^ k / 2 ^ d
above-read s k d x =
    rw
      (
        pow-add (s + k) d,
        pow-add s k,
        div-div-eq-div-mul x (2 ^ s) (2 ^ k),
        div-div-eq-div-mul x (2 ^ s * 2 ^ k) (2 ^ d),
      )
      refl

pub above-same :
    (i s k x y : ℕ) → s + k ≤ i → x / 2 ^ s / 2 ^ k ≡ y / 2 ^ s / 2 ^ k → x / 2 ^ i ≡ y / 2 ^ i
above-same i s k x y le e =
    let split : s + k + (i - (s + k)) ≡ i = omega arith in
    subst (λ p. x / 2 ^ p ≡ y / 2 ^ p) split
      (above-read s k (i - (s + k)) x
        ∙ ap (λ z. z / 2 ^ (i - (s + k))) e
        ∙ sym (above-read s k (i - (s + k)) y))

-- The parts of a word that is put together.
pub word-above : (s k h v l : ℕ) → v < 2 ^ k → l < 2 ^ s → word s k h v l / 2 ^ s / 2 ^ k ≡ h
word-above s k h v l vk ls =
    rw
      (
        mul-add-div_right (one-le-pow s 2 (omega arith)) (h * 2 ^ k + v) l,
        div-eq_of_lt ls,
        add-zero (h * 2 ^ k + v),
        mul-add-div_right (one-le-pow k 2 (omega arith)) h v,
        div-eq_of_lt vk,
      )
      (add-zero h)

pub word-below : (s k h v l : ℕ) → l < 2 ^ s → word s k h v l % 2 ^ s ≡ l
word-below s k h v l ls = mul-add-mod_self_right (h * 2 ^ k + v) (2 ^ s) l ∙ mod-eq_of_lt ls
