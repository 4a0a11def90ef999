-- ===== src/Bth/Psn.antt =====
-- The word of the packet sequence number and the acknowledge request.
use libconntrack_cm.Base.{ℕ, ◌+◌, ◌*◌, ◌/◌, ◌%◌, ◌^◌, ◌≡◌, refl, bit_and, arith}
use libconntrack_cm.Packet.Memory.{swap32, swap32-swap32, swap32-lt}
use libconntrack_cm.Bth.{Bth, bth_psn, bth_set_psn, bth_ack, is_nonzero}
use libconntrack_cm.Bth.Bits.{low24, high8, join24, and_low8, swap32-high}

bth_set_psn-word :
    (b : Bth) (psn : ℕ)
    → swap32 (bth_set_psn b psn).apsn ≡ swap32 b.apsn / 2 ^ 24 * 2 ^ 24 + psn % 2 ^ 24
unfolding bth_set_psn
bth_set_psn-word b psn =
    let h = swap32 b.apsn / 2 ^ 24 in
    rw (low24 psn, high8 (swap32 b.apsn) (swap32-lt b.apsn), join24 psn h)
      (swap32-swap32 (h * 2 ^ 24 + psn % 2 ^ 24) (omega (arith, swap32-lt b.apsn)))

pub bth_ack-low : (b : Bth) → bth_ack b ≡ is_nonzero (bit_and 0x80 (b.apsn % 2 ^ 8))
unfolding bth_ack swap32
bth_ack-low b = rw (and_low8 0x80 b.apsn (omega arith))

-- The byte of the acknowledge request and the reserved bits stays.
pub bth_set_psn-low : (b : Bth) (psn : ℕ) → (bth_set_psn b psn).apsn % 2 ^ 8 ≡ b.apsn % 2 ^ 8
bth_set_psn-low b psn =
    omega (arith, bth_set_psn-word b psn, swap32-high b.apsn, swap32-high (bth_set_psn b psn).apsn)

-- `bth_set_psn` writes the sequence number cut to 24 bits and keeps the acknowledge request.
pub bth_set_psn-reads :
    (b : Bth) (psn : ℕ)
    → (bth_psn (bth_set_psn b psn) ≡ psn % 2 ^ 24) × (bth_ack (bth_set_psn b psn) ≡ bth_ack b)
unfolding bth_psn
bth_set_psn-reads b psn =
    let c = bth_set_psn b psn in
    let word = bth_set_psn-word b psn in
    let same = bth_set_psn-low b psn in
    (ground (arith, low24 (swap32 c.apsn)), rw (bth_ack-low c, bth_ack-low b, same) refl)
