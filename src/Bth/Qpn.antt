-- ===== src/Bth/Qpn.antt =====
-- The word of the destination QP number: the number, the congestion bits and the reserved bits are set
-- and read independently, except by `bth_set_resv6a`.
use libconntrack_cm.Base.{
  ℕ, ◌+◌, ◌-◌, ◌*◌, ◌/◌, ◌%◌, ◌^◌, ◌<◌, ◌≡◌, refl, Bool, true, false, bit_and, bit_or, arith, ◌==◌,
  if◌then◌else◌, ◌&&◌, ltb,
}
use libconntrack_cm.Base.Bits.{
  bit_and-split, bit_and_comm, bit_and-zero, all_below, all_below_sound,
}
use libconntrack_cm.Packet.Memory.{swap32, swap32-swap32, swap32-lt}
use libconntrack_cm.Bth.{
  Bth, bth_qpn, bth_set_qpn, bth_fecn, bth_set_fecn, bth_becn, bth_set_becn, bth_resv6a,
  bth_set_resv6a, is_nonzero,
}
use libconntrack_cm.Bth.Bits.{
  bool_eq, low24, high8, join24, and_low8, or_low8, clear_low8, swap32-high,
}

-- The word after `bth_set_qpn`, in network order: the flags of the old word, the number of the new.
bth_set_qpn-word :
    (b : Bth) (q : ℕ) → swap32 (bth_set_qpn b q).qpn ≡ swap32 b.qpn / 2 ^ 24 * 2 ^ 24 + q % 2 ^ 24
unfolding bth_set_qpn
bth_set_qpn-word b q =
    let h = swap32 b.qpn / 2 ^ 24 in
    rw (low24 q, high8 (swap32 b.qpn) (swap32-lt b.qpn), join24 q h)
      (swap32-swap32 (h * 2 ^ 24 + q % 2 ^ 24) (omega (arith, swap32-lt b.qpn)))

pub bth_qpn-bth_set_qpn : (b : Bth) (q : ℕ) → bth_qpn (bth_set_qpn b q) ≡ q % 2 ^ 24
unfolding bth_qpn
bth_qpn-bth_set_qpn b q = ground (arith, bth_set_qpn-word b q, low24 (swap32 (bth_set_qpn b q).qpn))

-- The flags are the lowest byte of the word.
bth_set_qpn-low : (b : Bth) (q : ℕ) → (bth_set_qpn b q).qpn % 2 ^ 8 ≡ b.qpn % 2 ^ 8
bth_set_qpn-low b q =
    omega (arith, bth_set_qpn-word b q, swap32-high b.qpn, swap32-high (bth_set_qpn b q).qpn)

-- The four reads of the word, by its lowest byte and by the rest.
pub bth_fecn-low : (b : Bth) → bth_fecn b ≡ is_nonzero (bit_and 0x80 (b.qpn % 2 ^ 8))
unfolding bth_fecn swap32
bth_fecn-low b = rw (and_low8 0x80 b.qpn (omega arith))

pub bth_becn-low : (b : Bth) → bth_becn b ≡ is_nonzero (bit_and 0x40 (b.qpn % 2 ^ 8))
unfolding bth_becn swap32
bth_becn-low b = rw (and_low8 0x40 b.qpn (omega arith))

pub bth_resv6a-low : (b : Bth) → bth_resv6a b ≡ bit_and 0x3f (b.qpn % 2 ^ 8)
unfolding bth_resv6a
bth_resv6a-low b = ground (
  arith,
  bit_and-split 24 0x3f 0 (swap32 b.qpn / 2 ^ 24) (swap32 b.qpn % 2 ^ 24),
  bit_and_comm 0 (swap32 b.qpn % 2 ^ 24),
  bit_and-zero (swap32 b.qpn % 2 ^ 24),
  swap32-high b.qpn,
)

pub number : (x y : ℕ) → x / 2 ^ 8 ≡ y / 2 ^ 8 → swap32 x % 2 ^ 24 ≡ swap32 y % 2 ^ 24
unfolding swap32
number x y e = omega arith

bth_qpn-rest : (b c : Bth) → b.qpn / 2 ^ 8 ≡ c.qpn / 2 ^ 8 → bth_qpn b ≡ bth_qpn c
unfolding bth_qpn
bth_qpn-rest b c e =
    ground (arith, low24 (swap32 b.qpn), low24 (swap32 c.qpn), number b.qpn c.qpn e)

-- A flag of the lowest byte that is set or cleared.
abbrev pub set_low : ℕ → Bool → ℕ → ℕ
set_low m v l = if v then bit_or l m else bit_and l (2 ^ 8 - 1 - m)

bth_set_becn-word :
    (b : Bth) (v : Bool)
    → b.qpn < 2 ^ 32
    → (bth_set_becn b v).qpn ≡ b.qpn / 2 ^ 8 * 2 ^ 8 + set_low 0x40 v (b.qpn % 2 ^ 8)
unfolding bth_set_becn swap32
bth_set_becn-word b true h = or_low8 0x40 b.qpn (omega arith)
bth_set_becn-word b false h = clear_low8 0x40 b.qpn (omega arith) h

bth_set_fecn-word :
    (b : Bth) (v : Bool)
    → b.qpn < 2 ^ 32
    → (bth_set_fecn b v).qpn ≡ b.qpn / 2 ^ 8 * 2 ^ 8 + set_low 0x80 v (b.qpn % 2 ^ 8)
unfolding bth_set_fecn swap32
bth_set_fecn-word b true h = or_low8 0x80 b.qpn (omega arith)
bth_set_fecn-word b false h = clear_low8 0x80 b.qpn (omega arith) h

-- What the other reads of the lowest byte see of a flag that is set or cleared.
abbrev reads : ℕ → ℕ → Bool → ℕ → Bool
reads m other v l =
    let l' = set_low m v l in
    ltb l' 256
    && bool_eq (is_nonzero (bit_and m l')) v
    && bool_eq (is_nonzero (bit_and other l')) (is_nonzero (bit_and other l))
    && (bit_and 0x3f l' == bit_and 0x3f l)

reads-parts :
    (m other : ℕ) (v : Bool) (l : ℕ)
    → reads m other v l ≡ true
    → (set_low m v l < 256)
      × (is_nonzero (bit_and m (set_low m v l)) ≡ v)
      × (is_nonzero (bit_and other (set_low m v l)) ≡ is_nonzero (bit_and other l))
      × (bit_and 0x3f (set_low m v l) ≡ bit_and 0x3f l)
reads-parts m other v l h = ground arith

becn_table : (v : Bool) → all_below 256 (reads 0x40 0x80 v) ≡ true
unfolding all_below
becn_table true = refl
becn_table false = refl

fecn_table : (v : Bool) → all_below 256 (reads 0x80 0x40 v) ≡ true
unfolding all_below
fecn_table true = refl
fecn_table false = refl

-- `bth_set_qpn` writes the number cut to 24 bits, and keeps the congestion and the reserved bits.
pub bth_set_qpn-reads :
    (b : Bth) (q : ℕ)
    → (bth_qpn (bth_set_qpn b q) ≡ q % 2 ^ 24)
      × (bth_fecn (bth_set_qpn b q) ≡ bth_fecn b)
      × (bth_becn (bth_set_qpn b q) ≡ bth_becn b)
      × (bth_resv6a (bth_set_qpn b q) ≡ bth_resv6a b)
bth_set_qpn-reads b q =
    let c = bth_set_qpn b q in
    let low = bth_set_qpn-low b q in
    (
      bth_qpn-bth_set_qpn b q,
      rw (bth_fecn-low c, bth_fecn-low b, low) refl,
      rw (bth_becn-low c, bth_becn-low b, low) refl,
      rw (bth_resv6a-low c, bth_resv6a-low b, low) refl,
    )

-- On a 32-bit word, `bth_set_becn` sets or clears its bit, and keeps the number and the other bits.
pub bth_set_becn-reads :
    (b : Bth) (v : Bool)
    → b.qpn < 2 ^ 32
    → (bth_becn (bth_set_becn b v) ≡ v)
      × (bth_fecn (bth_set_becn b v) ≡ bth_fecn b)
      × (bth_resv6a (bth_set_becn b v) ≡ bth_resv6a b)
      × (bth_qpn (bth_set_becn b v) ≡ bth_qpn b)
bth_set_becn-reads b v h =
    let c = bth_set_becn b v in
    let word = bth_set_becn-word b v h in
    let (lt, own, other, resv) =
      reads-parts 0x40 0x80 v (b.qpn % 2 ^ 8)
        (all_below_sound 256 (reads 0x40 0x80 v) (b.qpn % 2 ^ 8) (becn_table v) (omega arith)) in
    let low : c.qpn % 2 ^ 8 ≡ set_low 0x40 v (b.qpn % 2 ^ 8) = omega arith in
    (
      rw (bth_becn-low c, low) own,
      rw (bth_fecn-low c, low, bth_fecn-low b) other,
      rw (bth_resv6a-low c, low, bth_resv6a-low b) resv,
      bth_qpn-rest c b (omega arith),
    )

-- On a 32-bit word, `bth_set_fecn` sets or clears its bit, and keeps the number and the other bits.
pub bth_set_fecn-reads :
    (b : Bth) (v : Bool)
    → b.qpn < 2 ^ 32
    → (bth_fecn (bth_set_fecn b v) ≡ v)
      × (bth_becn (bth_set_fecn b v) ≡ bth_becn b)
      × (bth_resv6a (bth_set_fecn b v) ≡ bth_resv6a b)
      × (bth_qpn (bth_set_fecn b v) ≡ bth_qpn b)
bth_set_fecn-reads b v h =
    let c = bth_set_fecn b v in
    let word = bth_set_fecn-word b v h in
    let (lt, own, other, resv) =
      reads-parts 0x80 0x40 v (b.qpn % 2 ^ 8)
        (all_below_sound 256 (reads 0x80 0x40 v) (b.qpn % 2 ^ 8) (fecn_table v) (omega arith)) in
    let low : c.qpn % 2 ^ 8 ≡ set_low 0x80 v (b.qpn % 2 ^ 8) = omega arith in
    (
      rw (bth_fecn-low c, low) own,
      rw (bth_becn-low c, low, bth_becn-low b) other,
      rw (bth_resv6a-low c, low, bth_resv6a-low b) resv,
      bth_qpn-rest c b (omega arith),
    )

-- `bth_set_resv6a` clears the reserved bits, but it also sets both congestion bits and overwrites the
-- number with ones, whatever they were.
pub bth_set_resv6a-overwrites :
    (b : Bth)
    → (bth_resv6a (bth_set_resv6a b) ≡ 0)
      × (bth_qpn (bth_set_resv6a b) ≡ 2 ^ 24 - 1)
      × (bth_fecn (bth_set_resv6a b) ≡ true)
      × (bth_becn (bth_set_resv6a b) ≡ true)
unfolding bth_resv6a bth_qpn bth_fecn bth_becn bth_set_resv6a swap32
bth_set_resv6a-overwrites b = (refl, refl, refl, refl)
