-- ===== src/Base/Runs.antt =====
-- A run of bits in a word: the word as the part above the run, the run, and the part below, and what `&` and `|` with
-- the run's mask do to them.
pub mod Apart
pub mod Bits
use Prim.Native.Nat.{ℕ, zero, suc, ◌+◌, ◌-◌, ◌*◌, ◌/◌, ◌%◌, ◌^◌, ◌≤◌, ◌<◌, bit_and, bit_or}
use mathlib.Core.Path.{◌≡◌, refl, sym, ap, ◌∙◌}
use native.Mathlib.Nat.{
  pow-suc, one-le-pow, mul-add-div_right, mul-add-mod_self_right, mod-eq_of_lt, div-eq_of_lt,
  mul_assoc, add-mul, div-add-mod, mul_comm, mod-lt, add-zero, add-suc, mul-one, suc-mul,
  mul-le-mul_right, pow-le-pow_right, div-lt_iff_lt-mul, one-le-mul, div-div-eq-div-mul,
}
use native.Mathlib.Omega.{arith}
use libconntrack_cm.Base.Bits.{
  bit_and-split, bit_or-split, bit_and-ones, bit_and-zero, bit_or-zero, bit_or-zero_left,
  bit_and_comm,
}

-- `k` bits of value `v`, with `s` bits below and the rest above.
abbrev pub word : ℕ → ℕ → ℕ → ℕ → ℕ → ℕ
word s k h v l = (h * 2 ^ k + v) * 2 ^ s + l

module _ (s k h v l : ℕ) (vk : v < 2 ^ k) (ls : l < 2 ^ s) where
  -- The mask of the run keeps the run.
  pub word-mask : bit_and (word s k h v l) ((2 ^ k - 1) * 2 ^ s) ≡ v * 2 ^ s
  word-mask =
      let low : (h * 2 ^ k + v) % 2 ^ k ≡ v =
        mul-add-mod_self_right h (2 ^ k) v ∙ mod-eq_of_lt vk in
      ground (
        arith,
        bit_and-split s (h * 2 ^ k + v) l (2 ^ k - 1) 0,
        bit_and-ones k (h * 2 ^ k + v),
        bit_and-zero l,
        one-le-pow s 2,
      )

  -- Its complement, in a word that has `t` more bits, keeps the rest.
  pub word-clear :
      (t : ℕ)
      → h < 2 ^ t
      → bit_and (word s k h v l) (word s k (2 ^ t - 1) 0 (2 ^ s - 1)) ≡ word s k h 0 l
  word-clear t ht =
      let top : bit_and h (2 ^ t - 1) ≡ h = bit_and-ones t h ∙ mod-eq_of_lt ht in
      let below : bit_and l (2 ^ s - 1) ≡ l = bit_and-ones s l ∙ mod-eq_of_lt ls in
      rw
        (
          bit_and-split s (h * 2 ^ k + v) l ((2 ^ t - 1) * 2 ^ k + 0) (2 ^ s - 1) ls
              (omega (arith, one-le-pow s 2)),
          bit_and-split k h v (2 ^ t - 1) 0 vk (omega (arith, one-le-pow k 2)),
          top,
          below,
          bit_and-zero v,
        )
        refl

  pub word-fill : bit_or (word s k h 0 l) (v * 2 ^ s) ≡ word s k h v l
  word-fill = ground (
    arith,
    bit_or-split s (h * 2 ^ k + 0) l v 0,
    bit_or-split k h 0 0 v,
    bit_or-zero h,
    bit_or-zero l,
    bit_or-zero_left v,
    one-le-pow s 2,
    one-le-pow k 2,
  )

-- Any number is such a word.
pub word-parts : (s k x : ℕ) → word s k (x / 2 ^ s / 2 ^ k) (x / 2 ^ s % 2 ^ k) (x % 2 ^ s) ≡ x
word-parts s k x =
    let top : x / 2 ^ s / 2 ^ k * 2 ^ k + x / 2 ^ s % 2 ^ k ≡ x / 2 ^ s =
      ap (λ y. y + x / 2 ^ s % 2 ^ k) (mul_comm (x / 2 ^ s / 2 ^ k) (2 ^ k))
      ∙ div-add-mod (x / 2 ^ s) (2 ^ k) in
    rw top (ap (λ y. y + x % 2 ^ s) (mul_comm (x / 2 ^ s) (2 ^ s)) ∙ div-add-mod x (2 ^ s))

pub word-run : (s k h v l : ℕ) → v < 2 ^ k → l < 2 ^ s → word s k h v l / 2 ^ s % 2 ^ k ≡ v
word-run s k h v l vk ls =
    rw
      (
        mul-add-div_right (one-le-pow s 2 (omega arith)) (h * 2 ^ k + v) l,
        div-eq_of_lt ls,
        add-zero (h * 2 ^ k + v),
      )
      (mul-add-mod_self_right h (2 ^ k) v ∙ mod-eq_of_lt vk)

pub run-lt : (k x : ℕ) → x % 2 ^ k < 2 ^ k
run-lt k x = mod-lt x (one-le-pow k 2 (omega arith))

-- A mask of `k` ones above `s` zeros cuts the run out of any number.
pub mask-run : (s k x : ℕ) → bit_and x ((2 ^ k - 1) * 2 ^ s) ≡ x / 2 ^ s % 2 ^ k * 2 ^ s
mask-run s k x =
    let h = x / 2 ^ s / 2 ^ k in
    let v = x / 2 ^ s % 2 ^ k in
    ap (λ y. bit_and y ((2 ^ k - 1) * 2 ^ s)) (sym (word-parts s k x))
    ∙ word-mask s k h v (x % 2 ^ s) (run-lt k (x / 2 ^ s)) (run-lt s x)

pub pow-add : (a b : ℕ) → 2 ^ (a + b) ≡ 2 ^ a * 2 ^ b
pow-add a zero = rw (add-zero a) (sym (mul-one (2 ^ a)))
pow-add a (suc b) =
    rw (add-suc a b, pow-suc 2 (a + b), pow-add a b, pow-suc 2 b) (mul_assoc (2 ^ a) (2 ^ b) 2)

-- The run with what stands below it.
word-low : (s m v l : ℕ) → v < 2 ^ m → l < 2 ^ s → v * 2 ^ s + l < 2 ^ (s + m)
word-low s m v l vm ls =
    omega
      (arith, pow-add s m, mul_comm (2 ^ s) (2 ^ m), suc-mul v (2 ^ s), mul-le-mul_right (2 ^ s) vm)

word-high : (s m h v l : ℕ) → word s m h v l ≡ h * 2 ^ (s + m) + (v * 2 ^ s + l)
word-high s m h v l = omega (
  arith,
  pow-add s m,
  ap (λ y. h * y) (pow-add s m),
  ap (λ y. h * y) (mul_comm (2 ^ s) (2 ^ m)),
  mul_assoc h (2 ^ m) (2 ^ s),
  add-mul (h * 2 ^ m) v (2 ^ s),
)

-- Cutting a number to a width, below the run and then at it.
pub cut-shift : (s m x : ℕ) → x % 2 ^ (s + m) / 2 ^ s ≡ x / 2 ^ s % 2 ^ m
cut-shift s m x =
    let h = x / 2 ^ s / 2 ^ m in
    let v = x / 2 ^ s % 2 ^ m in
    let l = x % 2 ^ s in
    let low = word-low s m v l (run-lt m (x / 2 ^ s)) (run-lt s x) in
    let cut : x % 2 ^ (s + m) ≡ v * 2 ^ s + l =
      ap (λ y. y % 2 ^ (s + m)) (sym (word-parts s m x) ∙ word-high s m h v l)
      ∙ mul-add-mod_self_right h (2 ^ (s + m)) (v * 2 ^ s + l)
      ∙ mod-eq_of_lt low in
    rw (cut, mul-add-div_right (one-le-pow s 2 (omega arith)) v l, div-eq_of_lt (run-lt s x))
      (add-zero v)

pred-mul : (a b : ℕ) → 1 ≤ a → (a - 1) * b + b ≡ a * b
pred-mul a b h =
    let back : suc (a - 1) ≡ a = omega arith in sym (suc-mul (a - 1) b) ∙ ap (λ y. y * b) back

-- The mask of a run in a word of `s + k + t` bits: it fits, and its complement is the rest of the word.
module _ (s k t : ℕ) where
  mask-le : (2 ^ k - 1) * 2 ^ s + 2 ^ s ≡ 2 ^ (s + k)
  mask-le =
      pred-mul (2 ^ k) (2 ^ s) (one-le-pow k 2 (omega arith))
      ∙ mul_comm (2 ^ k) (2 ^ s)
      ∙ sym (pow-add s k)

  pub run-word-lt : (v : ℕ) → v < 2 ^ k → v * 2 ^ s < 2 ^ (s + k + t)
  run-word-lt v h =
      let wider : 2 ^ (s + k) ≤ 2 ^ (s + k + t) = pow-le-pow_right (omega arith) (omega arith) in
      omega (arith, word-low s k v 0 h (one-le-pow s 2 (omega arith)))

  pub not-mask : 2 ^ (s + k + t) - 1 - (2 ^ k - 1) * 2 ^ s ≡ word s k (2 ^ t - 1) 0 (2 ^ s - 1)
  not-mask = omega (
    arith,
    word-high s k (2 ^ t - 1) 0 (2 ^ s - 1),
    pred-mul (2 ^ t) (2 ^ (s + k)) (one-le-pow t 2 (omega arith)),
    mask-le,
    pow-add (s + k) t,
    mul_comm (2 ^ (s + k)) (2 ^ t),
    one-le-pow s 2 (omega arith),
  )

  -- `&` with the complement and `|` with a value replace the run.
  pub word-replace :
      (x v : ℕ)
      → x < 2 ^ (s + k + t)
      → v < 2 ^ k
      → bit_or (bit_and x (2 ^ (s + k + t) - 1 - (2 ^ k - 1) * 2 ^ s)) (v * 2 ^ s)
        ≡ word s k (x / 2 ^ s / 2 ^ k) v (x % 2 ^ s)
  word-replace x v lt vk =
      let h = x / 2 ^ s / 2 ^ k in
      let run = x / 2 ^ s % 2 ^ k in
      let top : h < 2 ^ t = rw (div-div-eq-div-mul x (2 ^ s) (2 ^ k)) (
        (div-lt_iff_lt-mul
            (one-le-mul (one-le-pow s 2 (omega arith)) (one-le-pow k 2 (omega arith)))).1
          (omega (
            arith,
            pow-add s k,
            pow-add (s + k) t,
            mul_comm (2 ^ (s + k)) (2 ^ t),
            ap (λ y. 2 ^ t * y) (pow-add s k),
          ))) in
      rw (not-mask) (
        ap (λ y. bit_or (bit_and y (word s k (2 ^ t - 1) 0 (2 ^ s - 1))) (v * 2 ^ s))
          (sym (word-parts s k x))
        ∙ ap (λ y. bit_or y (v * 2 ^ s))
            (word-clear s k h run (x % 2 ^ s) (run-lt k (x / 2 ^ s)) (run-lt s x) t top)
        ∙ word-fill s k h v (x % 2 ^ s) vk (run-lt s x))
