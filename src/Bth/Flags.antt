-- ===== src/Bth/Flags.antt =====
-- The flags byte of the header: solicited event, migration, pad count and transport version. The laws
-- are checked at each of the 256 bytes.
use libconntrack_cm.Base.{
  ℕ, ◌*◌, ◌/◌, ◌%◌, ◌^◌, ◌<◌, ◌≡◌, refl, Bool, true, false, bit_and, bit_or, arith, ◌==◌,
  if◌then◌else◌, ◌&&◌,
}
use libconntrack_cm.Base.Bits.{all_below, all_below_sound, bit_and-split, ones-bit_and}
use libconntrack_cm.Bth.{
  Bth, bth_se, bth_set_se, bth_mig, bth_set_mig, bth_pad, bth_set_pad, bth_tver, bth_set_tver,
  is_nonzero,
}
use libconntrack_cm.Bth.Bits.{bool_eq}

-- The fields of a flags byte.
abbrev pub se_of : ℕ → Bool
se_of l = is_nonzero (bit_and 0x80 l)

abbrev pub mig_of : ℕ → Bool
mig_of l = is_nonzero (bit_and 0x40 l)

abbrev pub pad_of : ℕ → ℕ
pad_of l = bit_and 0x30 l / 2 ^ 4

abbrev pub tver_of : ℕ → ℕ
tver_of l = bit_and 0x0f l

abbrev pub byte_reads : ℕ → Bool → Bool → ℕ → ℕ → Bool
byte_reads l se mig pad tver =
    bool_eq (se_of l) se && bool_eq (mig_of l) mig && (pad_of l == pad) && (tver_of l == tver)

abbrev se_law : Bool → ℕ → Bool
se_law v l =
    byte_reads (if v then bit_or l 0x80 else bit_and l 0x7f) v (mig_of l) (pad_of l) (tver_of l)

se_table : (v : Bool) → all_below 256 (se_law v) ≡ true
unfolding all_below
se_table true = refl
se_table false = refl

-- `bth_set_se` sets its flag to its argument and keeps the other three fields.
pub bth_set_se-reads :
    (b : Bth) (v : Bool)
    → b.flags < 2 ^ 8
    → (bth_se (bth_set_se b v) ≡ v)
      × (bth_mig (bth_set_se b v) ≡ bth_mig b)
      × (bth_pad (bth_set_se b v) ≡ bth_pad b)
      × (bth_tver (bth_set_se b v) ≡ bth_tver b)
unfolding bth_set_se bth_se bth_mig bth_pad bth_tver
bth_set_se-reads b v h = ground (arith, all_below_sound 256 (se_law v) b.flags (se_table v))

abbrev mig_law : Bool → ℕ → Bool
mig_law v l =
    byte_reads (if v then bit_or l 0x40 else bit_and l 0xbf) (se_of l) v (pad_of l) (tver_of l)

mig_table : (v : Bool) → all_below 256 (mig_law v) ≡ true
unfolding all_below
mig_table true = refl
mig_table false = refl

-- `bth_set_mig` sets its flag to its argument and keeps the other three fields.
pub bth_set_mig-reads :
    (b : Bth) (v : Bool)
    → b.flags < 2 ^ 8
    → (bth_mig (bth_set_mig b v) ≡ v)
      × (bth_se (bth_set_mig b v) ≡ bth_se b)
      × (bth_pad (bth_set_mig b v) ≡ bth_pad b)
      × (bth_tver (bth_set_mig b v) ≡ bth_tver b)
unfolding bth_set_mig bth_se bth_mig bth_pad bth_tver
bth_set_mig-reads b v h = ground (arith, all_below_sound 256 (mig_law v) b.flags (mig_table v))

-- The two bits of a pad count that the mask lets through.
pub pad_bits : (pad : ℕ) → bit_and 0x30 (pad * 2 ^ 4) ≡ pad % 4 * 2 ^ 4
pad_bits pad = ground (arith, bit_and-split 4 3 0 pad 0, ones-bit_and 2 pad)

abbrev pad_law : ℕ → ℕ → Bool
pad_law p l =
    byte_reads (bit_or (p * 2 ^ 4) (bit_and 0xcf l) % 2 ^ 8) (se_of l) (mig_of l) p (tver_of l)

pad_table : all_below 4 (λ p. all_below 256 (pad_law p)) ≡ true
unfolding all_below
pad_table = refl

pad_byte : (pad l : ℕ) → l < 2 ^ 8 → pad_law (pad % 4) l ≡ true
pad_byte pad l h =
    all_below_sound 256 (pad_law (pad % 4)) l
      (all_below_sound 4 (λ p. all_below 256 (pad_law p)) (pad % 4) pad_table (omega arith)) h

-- `bth_set_pad` stores the pad count cut to two bits and keeps the other three fields.
pub bth_set_pad-reads :
    (b : Bth) (pad : ℕ)
    → b.flags < 2 ^ 8
    → (bth_pad (bth_set_pad b pad) ≡ pad % 4)
      × (bth_se (bth_set_pad b pad) ≡ bth_se b)
      × (bth_mig (bth_set_pad b pad) ≡ bth_mig b)
      × (bth_tver (bth_set_pad b pad) ≡ bth_tver b)
unfolding bth_set_pad bth_se bth_mig bth_pad bth_tver
bth_set_pad-reads b pad h = ground (arith, pad_bits pad, pad_byte pad b.flags h)

abbrev tver_law : ℕ → ℕ → Bool
tver_law v l = byte_reads (bit_or v (bit_and 0xf0 l) % 2 ^ 8) (se_of l) (mig_of l) (pad_of l) v

tver_table : all_below 16 (λ v. all_below 256 (tver_law v)) ≡ true
unfolding all_below
tver_table = refl

tver_byte : (v l : ℕ) → l < 2 ^ 8 → tver_law (v % 16) l ≡ true
tver_byte v l h =
    all_below_sound 256 (tver_law (v % 16)) l
      (all_below_sound 16 (λ v. all_below 256 (tver_law v)) (v % 16) tver_table (omega arith)) h

-- `bth_set_tver` stores the version cut to four bits and keeps the other three fields.
pub bth_set_tver-reads :
    (b : Bth) (tver : ℕ)
    → b.flags < 2 ^ 8
    → (bth_tver (bth_set_tver b tver) ≡ tver % 16)
      × (bth_se (bth_set_tver b tver) ≡ bth_se b)
      × (bth_mig (bth_set_tver b tver) ≡ bth_mig b)
      × (bth_pad (bth_set_tver b tver) ≡ bth_pad b)
unfolding bth_set_tver bth_se bth_mig bth_pad bth_tver
bth_set_tver-reads b tver h = ground (arith, ones-bit_and 4 tver, tver_byte tver b.flags h)
