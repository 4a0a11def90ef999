-- ===== src/Base/Bits.antt =====
-- `&` and `|` on the two parts of a word that is cut at bit `k`, at every width.
use Prim.Native.Nat.{
  ℕ, zero, suc, ◌+◌, ◌-◌, ◌*◌, ◌/◌, ◌%◌, ◌^◌, ◌≤◌, ◌<◌, min, max, digits, bit_and, bit_or,
  bit_and-bitwise, bit_or-bitwise,
}
use mathlib.Core.Path.{◌≡◌, refl, ap, ◌∙◌}
use mathlib.Core.Bool.{Bool, true, ◌&&◌}
use native.Mathlib.Nat.{pow-suc, one-le-pow}
use native.Mathlib.Omega.{arith}

-- `&` and `|` run down the binary digits of their first argument by a count that only has to be large
-- enough: two counts that are give the same number.
module _ (rest : ℕ → ℕ) (digit : ℕ → ℕ → ℕ) where
  digits-zero : (k y : ℕ) → digits rest digit k 0 y ≡ rest y
  digits-zero zero y = refl
  digits-zero (suc k) y = refl

  digits-count : (j k x y : ℕ) → x ≤ k → x ≤ j → digits rest digit k x y ≡ digits rest digit j x y
  digits-count j k zero y hk hj = rw (digits-zero k y, digits-zero j y) refl
  digits-count zero k (suc x) y hk hj = absurd (omega arith)
  digits-count (suc j) zero (suc x) y hk hj = absurd (omega arith)
  digits-count (suc j) (suc k) (suc x) y hk hj =
      rw (digits-count j k (suc x / 2) (y / 2) (omega arith) (omega arith))

zero-bit_or : (y : ℕ) → bit_or 0 y ≡ y
zero-bit_or y = bit_or-bitwise 0 y

zero-bit_and : (y : ℕ) → bit_and 0 y ≡ 0
zero-bit_and y = bit_and-bitwise 0 y

-- The lowest digit, and the rest.
bit_and_low : (x y : ℕ) → bit_and x y ≡ min (x % 2) (y % 2) + 2 * bit_and (x / 2) (y / 2)
bit_and_low zero y = omega (arith, zero-bit_and (y / 2), zero-bit_and y)
bit_and_low (suc x) y =
    let half = suc x / 2 in
    let counts = digits-count (λ _. 0) min half x half (y / 2) (omega arith) (omega arith) in
    omega (arith, counts, bit_and-bitwise half (y / 2), bit_and-bitwise (suc x) y)

bit_or_low : (x y : ℕ) → bit_or x y ≡ max (x % 2) (y % 2) + 2 * bit_or (x / 2) (y / 2)
bit_or_low zero y = omega (arith, zero-bit_or (y / 2), zero-bit_or y)
bit_or_low (suc x) y =
    let half = suc x / 2 in
    let counts = digits-count (λ i. i) max half x half (y / 2) (omega arith) (omega arith) in
    omega (arith, counts, bit_or-bitwise half (y / 2), bit_or-bitwise (suc x) y)

mul-pow-suc : (q k : ℕ) → q * 2 ^ suc k ≡ 2 * (q * 2 ^ k)
mul-pow-suc q k = omega (arith, ap (λ (t : ℕ). q * t) (pow-suc 2 k))

-- Both operations work on the upper and the lower part on their own.
pub bit_and-split :
    (k q r s t : ℕ)
    → r < 2 ^ k
    → t < 2 ^ k
    → bit_and (q * 2 ^ k + r) (s * 2 ^ k + t) ≡ bit_and q s * 2 ^ k + bit_and r t
bit_and-split zero q r s t hr ht =
    let zr : r ≡ 0 = omega arith in let zt : t ≡ 0 = omega arith in rw (zr, zt) (ground arith)
bit_and-split (suc k) q r s t hr ht = ground (
  arith,
  bit_and_low (q * 2 ^ suc k + r) (s * 2 ^ suc k + t),
  bit_and_low r t,
  mul-pow-suc q k,
  mul-pow-suc s k,
  mul-pow-suc (bit_and q s) k,
  pow-suc 2 k,
  bit_and-split k q (r / 2) s (t / 2),
)

pub bit_or-split :
    (k q r s t : ℕ)
    → r < 2 ^ k
    → t < 2 ^ k
    → bit_or (q * 2 ^ k + r) (s * 2 ^ k + t) ≡ bit_or q s * 2 ^ k + bit_or r t
bit_or-split zero q r s t hr ht =
    let zr : r ≡ 0 = omega arith in let zt : t ≡ 0 = omega arith in rw (zr, zt) (ground arith)
bit_or-split (suc k) q r s t hr ht = ground (
  arith,
  bit_or_low (q * 2 ^ suc k + r) (s * 2 ^ suc k + t),
  bit_or_low r t,
  mul-pow-suc q k,
  mul-pow-suc s k,
  mul-pow-suc (bit_or q s) k,
  pow-suc 2 k,
  bit_or-split k q (r / 2) s (t / 2),
)

-- With nothing on one side.
bit_and-zero_below : (x bound : ℕ) → x < bound → bit_and x 0 ≡ 0
bit_and-zero_below x zero lt = absurd (omega arith)
bit_and-zero_below zero (suc bound) lt = zero-bit_and 0
bit_and-zero_below (suc x) (suc bound) lt =
    omega (arith, bit_and-zero_below (suc x / 2) bound (omega arith), bit_and_low (suc x) 0)

pub bit_and-zero : (x : ℕ) → bit_and x 0 ≡ 0
bit_and-zero x = bit_and-zero_below x (x + 1) (omega arith)

bit_or-zero_below : (x bound : ℕ) → x < bound → bit_or x 0 ≡ x
bit_or-zero_below x zero lt = absurd (omega arith)
bit_or-zero_below zero (suc bound) lt = zero-bit_or 0
bit_or-zero_below (suc x) (suc bound) lt =
    omega (arith, bit_or-zero_below (suc x / 2) bound (omega arith), bit_or_low (suc x) 0)

pub bit_or-zero : (x : ℕ) → bit_or x 0 ≡ x
bit_or-zero x = bit_or-zero_below x (x + 1) (omega arith)

pub bit_or-zero_left : (a : ℕ) → bit_or 0 a ≡ a
bit_or-zero_left a = zero-bit_or a

bit_and_comm_fuel : (n a b : ℕ) → a ≤ n → bit_and a b ≡ bit_and b a
bit_and_comm_fuel n zero b h = omega (arith, zero-bit_and b, bit_and-zero b)
bit_and_comm_fuel zero (suc a) b h = absurd (omega arith)
bit_and_comm_fuel (suc n) (suc a) b h = omega (
  arith,
  bit_and_low (suc a) b,
  bit_and_low b (suc a),
  bit_and_comm_fuel n (suc a / 2) (b / 2) (omega arith),
)

pub bit_and_comm : (a b : ℕ) → bit_and a b ≡ bit_and b a
bit_and_comm a b = bit_and_comm_fuel a a b (omega arith)

-- A mask of `k` ones keeps a number below `2 ^ k`, and cuts any other down to it.
bit_and-ones_self : (k r : ℕ) → r < 2 ^ k → bit_and r (2 ^ k - 1) ≡ r
bit_and-ones_self zero r h = let z : r ≡ 0 = omega arith in rw z refl
bit_and-ones_self (suc k) r h =
    ground (
      arith,
      bit_and_low r (2 ^ suc k - 1),
      bit_and-ones_self k (r / 2),
      pow-suc 2 k,
      one-le-pow k 2,
    )

pub bit_and-ones : (k a : ℕ) → bit_and a (2 ^ k - 1) ≡ a % 2 ^ k
bit_and-ones k a = ground (
  arith,
  bit_and-split k (a / 2 ^ k) (a % 2 ^ k) 0 (2 ^ k - 1),
  bit_and-ones_self k (a % 2 ^ k),
  bit_and-zero (a / 2 ^ k),
  one-le-pow k 2,
)

pub ones-bit_and : (k a : ℕ) → bit_and (2 ^ k - 1) a ≡ a % 2 ^ k
ones-bit_and k a = bit_and_comm (2 ^ k - 1) a ∙ bit_and-ones k a

-- Neither leaves the width of its arguments.
pub bit_and-lt : (k x y : ℕ) → x < 2 ^ k → bit_and x y < 2 ^ k
bit_and-lt zero x y h = let z : x ≡ 0 = omega arith in rw z (omega (arith, zero-bit_and y))
bit_and-lt (suc k) x y h =
    ground (arith, bit_and_low x y, bit_and-lt k (x / 2) (y / 2), pow-suc 2 k)

pub bit_or-lt : (k x y : ℕ) → x < 2 ^ k → y < 2 ^ k → bit_or x y < 2 ^ k
bit_or-lt zero x y h i =
    let zx : x ≡ 0 = omega arith in let zy : y ≡ 0 = omega arith in rw (zx, zy) (omega arith)
bit_or-lt (suc k) x y h i = ground (arith, bit_or_low x y, bit_or-lt k (x / 2) (y / 2), pow-suc 2 k)

-- Over a small range, a law is checked at every value.
unfoldable pub all_below : ℕ → (ℕ → Bool) → Bool
all_below zero law = true
all_below (suc top) law = all_below top law && law top

pub all_below_sound :
    (bound : ℕ) (law : ℕ → Bool) (i : ℕ) → all_below bound law ≡ true → i < bound → law i ≡ true
unfolding all_below
all_below_sound (suc top) law i checked lt = ground (arith, all_below_sound top law i)
all_below_sound zero law i checked lt = absurd (omega arith)
