-- ===== src/Bth/Ack.antt =====
-- The acknowledge request and the reserved bits, in the first byte of the sequence number's word.
use libconntrack_cm.Base.{
  ℕ, ◌+◌, ◌*◌, ◌/◌, ◌%◌, ◌^◌, ◌<◌, ◌≡◌, refl, Bool, true, false, ◌&&◌, bit_and, arith, ltb, ◌==◌,
}
use libconntrack_cm.Base.Bits.{all_below, all_below_sound}
use libconntrack_cm.Packet.Memory.{swap32}
use libconntrack_cm.Bth.{Bth, bth_psn, bth_ack, bth_set_ack, bth_set_resv7, is_nonzero}
use libconntrack_cm.Bth.Bits.{bool_eq, low24, or_low8, clear_low8}
use libconntrack_cm.Bth.Psn.{bth_ack-low}
use libconntrack_cm.Bth.Qpn.{set_low, number}

bth_psn-rest : (b c : Bth) → b.apsn / 2 ^ 8 ≡ c.apsn / 2 ^ 8 → bth_psn b ≡ bth_psn c
unfolding bth_psn
bth_psn-rest b c e =
    ground (arith, low24 (swap32 b.apsn), low24 (swap32 c.apsn), number b.apsn c.apsn e)

bth_set_ack-word :
    (b : Bth) (v : Bool)
    → b.apsn < 2 ^ 32
    → (bth_set_ack b v).apsn ≡ b.apsn / 2 ^ 8 * 2 ^ 8 + set_low 0x80 v (b.apsn % 2 ^ 8)
unfolding bth_set_ack swap32
bth_set_ack-word b true h = or_low8 0x80 b.apsn (omega arith)
bth_set_ack-word b false h = clear_low8 0x80 b.apsn (omega arith) h

bth_set_resv7-word :
    (b : Bth)
    → b.apsn < 2 ^ 32
    → (bth_set_resv7 b).apsn ≡ b.apsn / 2 ^ 8 * 2 ^ 8 + bit_and (b.apsn % 2 ^ 8) 0x80
unfolding bth_set_resv7 swap32
bth_set_resv7-word b h = clear_low8 0x7f b.apsn (omega arith) h

-- A byte after its first bit is set or cleared, and after its other bits are cleared.
abbrev ack_law : Bool → ℕ → Bool
ack_law v l =
    ltb (set_low 0x80 v l) 256
    && bool_eq (is_nonzero (bit_and 0x80 (set_low 0x80 v l))) v
    && (set_low 0x80 v l % 2 ^ 7 == l % 2 ^ 7)

ack_table : (v : Bool) → all_below 256 (ack_law v) ≡ true
unfolding all_below
ack_table true = refl
ack_table false = refl

abbrev resv7_law : ℕ → Bool
resv7_law l =
    ltb (bit_and l 0x80) 256
    && bool_eq (is_nonzero (bit_and 0x80 (bit_and l 0x80))) (is_nonzero (bit_and 0x80 l))
    && (bit_and l 0x80 % 2 ^ 7 == 0)

resv7_table : all_below 256 resv7_law ≡ true
unfolding all_below
resv7_table = refl

ack-parts :
    (v : Bool) (l : ℕ)
    → ack_law v l ≡ true
    → (set_low 0x80 v l < 256)
      × (is_nonzero (bit_and 0x80 (set_low 0x80 v l)) ≡ v)
      × (set_low 0x80 v l % 2 ^ 7 ≡ l % 2 ^ 7)
ack-parts v l h = ground arith

resv7-parts :
    (l : ℕ)
    → resv7_law l ≡ true
    → (bit_and l 0x80 < 256)
      × (is_nonzero (bit_and 0x80 (bit_and l 0x80)) ≡ is_nonzero (bit_and 0x80 l))
      × (bit_and l 0x80 % 2 ^ 7 ≡ 0)
resv7-parts l h = ground arith

pub bth_set_ack-reads :
    (b : Bth) (v : Bool)
    → b.apsn < 2 ^ 32
    → (bth_ack (bth_set_ack b v) ≡ v)
      × (bth_psn (bth_set_ack b v) ≡ bth_psn b)
      × ((bth_set_ack b v).apsn % 2 ^ 7 ≡ b.apsn % 2 ^ 7)
bth_set_ack-reads b v h =
    let c = bth_set_ack b v in
    let word = bth_set_ack-word b v h in
    let (lt, own, resv) =
      ack-parts v (b.apsn % 2 ^ 8)
        (all_below_sound 256 (ack_law v) (b.apsn % 2 ^ 8) (ack_table v) (omega arith)) in
    let low : c.apsn % 2 ^ 8 ≡ set_low 0x80 v (b.apsn % 2 ^ 8) = omega arith in
    (rw (bth_ack-low c, low) own, bth_psn-rest c b (omega arith), omega arith)

pub bth_set_resv7-clears :
    (b : Bth)
    → b.apsn < 2 ^ 32
    → (bth_ack (bth_set_resv7 b) ≡ bth_ack b)
      × (bth_psn (bth_set_resv7 b) ≡ bth_psn b)
      × ((bth_set_resv7 b).apsn % 2 ^ 7 ≡ 0)
bth_set_resv7-clears b h =
    let c = bth_set_resv7 b in
    let word = bth_set_resv7-word b h in
    let (lt, own, resv) =
      resv7-parts (b.apsn % 2 ^ 8)
        (all_below_sound 256 resv7_law (b.apsn % 2 ^ 8) resv7_table (omega arith)) in
    let low : c.apsn % 2 ^ 8 ≡ bit_and (b.apsn % 2 ^ 8) 0x80 = omega arith in
    (rw (bth_ack-low c, low, bth_ack-low b) own, bth_psn-rest c b (omega arith), omega arith)
