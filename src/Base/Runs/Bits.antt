-- ===== src/Base/Runs/Bits.antt =====
-- A run of bits is its bits, one by one.
use Prim.Native.Nat.{ℕ, zero, suc, ◌+◌, ◌*◌, ◌/◌, ◌%◌, ◌^◌, ◌<◌}
use mathlib.Core.Path.{◌≡◌, refl, sym, ◌∙◌}
use native.Mathlib.Nat.{div-add-mod, div-div-eq-div-mul}
use native.Mathlib.Omega.{arith}
use libconntrack_cm.Base.Runs.{cut-shift, pow-add}
use libconntrack_cm.Base.Runs.Apart.{mod-narrow, below-same}

-- The low bits of a number, and the next one.
low-step : (j z : ℕ) → z % 2 ^ (j + 1) ≡ 2 ^ j * (z / 2 ^ j % 2) + z % 2 ^ j
low-step j z =
    let top : z % 2 ^ (j + 1) / 2 ^ j ≡ z / 2 ^ j % 2 = cut-shift j 1 z in
    let low : z % 2 ^ (j + 1) % 2 ^ j ≡ z % 2 ^ j = mod-narrow j 1 z in
    sym (div-add-mod (z % 2 ^ (j + 1)) (2 ^ j)) ∙ rw (top, low) refl

low-same : (j x y : ℕ) → ((n : ℕ) → n < j → x / 2 ^ n % 2 ≡ y / 2 ^ n % 2) → x % 2 ^ j ≡ y % 2 ^ j
low-same zero x y e = omega arith
low-same (suc j) x y e =
    let next : suc j ≡ j + 1 = omega arith in
    rw
      (
        next,
        low-step j x,
        low-step j y,
        e j (omega arith),
        low-same j x y (λ n h. e n (omega arith)),
      )
      refl

pub run-same :
    (i j x y : ℕ)
    → ((n : ℕ) → n < j → x / 2 ^ (i + n) % 2 ≡ y / 2 ^ (i + n) % 2)
    → x / 2 ^ i % 2 ^ j ≡ y / 2 ^ i % 2 ^ j
run-same i j x y e = low-same j (x / 2 ^ i) (y / 2 ^ i) λ n h.
    rw (div-div-eq-div-mul x (2 ^ i) (2 ^ n), div-div-eq-div-mul y (2 ^ i) (2 ^ n), ← pow-add i n)
      (e n h)

-- The bits of a number that is put together from a number and a byte.
pub byte-low : (x y i : ℕ) → y < 2 ^ 8 → i < 8 → (x * 2 ^ 8 + y) / 2 ^ i % 2 ≡ y / 2 ^ i % 2
byte-low x y i lt h = below-same i 1 8 (x * 2 ^ 8 + y) y (omega arith) (omega arith)

pub byte-high : (x y i : ℕ) → y < 2 ^ 8 → (x * 2 ^ 8 + y) / 2 ^ (8 + i) ≡ x / 2 ^ i
byte-high x y i lt =
    let above : (x * 2 ^ 8 + y) / 2 ^ 8 ≡ x = omega arith in
    rw (pow-add 8 i) (sym (div-div-eq-div-mul (x * 2 ^ 8 + y) (2 ^ 8) (2 ^ i)) ∙ rw above refl)
