-- ===== src/Cnp/Icrc.antt =====
-- What the invariant CRC of a notification packet depends on.
use libconntrack_cm.Base.{
  ℕ, zero, suc, ◌+◌, ◌-◌, ◌*◌, ◌<◌, ◌≤◌, ◌≡◌, ◌^◌, refl, Bool, false, ◌||◌, arith, ◌==◌,
}
use libconntrack_cm.Packet.Memory.{Bytes, IsBytes, store32, swap32, load32}
use libconntrack_cm.Bth.{bth_qpn, load_bth}
use libconntrack_cm.Bth.Bits.{low24}
use libconntrack_cm.Cnp.{
  mask_headers, pseudo_packet, bytes_at, icrc_input, pseudo_bth, pseudo_bytes,
}

-- The bytes of the packet, counted from its IPv4 header, that may change on the way: the type of service,
-- the time to live, the checksums of IPv4 and UDP, and the congestion and reserved bits of the BTH.
abbrev pub is_variant : ℕ → Bool
is_variant i = (i == 1) || (i == 8) || (i == 10) || (i == 11) || (i == 26) || (i == 27) || (i == 32)

-- Two packets that agree on the other bytes of their headers.
abbrev pub SameInvariant : Bytes → ℕ → Bytes → ℕ → Type 0
SameInvariant m ip m' ip' = (i : ℕ) → i < 56 → is_variant i ≡ false → m (ip + i) ≡ m' (ip' + i)

bytes_at-same :
    (m m' : Bytes) (a n : ℕ) → ((i : ℕ) → i < a + n → m i ≡ m' i) → bytes_at m a n ≡ bytes_at m' a n
unfolding bytes_at
bytes_at-same m m' a zero h = refl
bytes_at-same m m' a (suc n) h =
    rw (h a (omega arith), bytes_at-same m m' (a + 1) n (λ i lt. h i (omega arith))) refl

load-qpn :
    (m : Bytes) (a : ℕ)
    → ((i : ℕ) → 4 ≤ i → i < 8 → m (a + i) < 2 ^ 8)
    → bth_qpn (load_bth m a) ≡ m (a + 5) * 2 ^ 16 + m (a + 6) * 2 ^ 8 + m (a + 7)
unfolding bth_qpn load_bth load32 swap32
load-qpn m a b = rw (low24 (swap32 (load32 m (a + 4)))) (
    ground (
      arith,
      b 4 (omega arith) (omega arith),
      b 5 (omega arith) (omega arith),
      b 6 (omega arith) (omega arith),
      b 7 (omega arith) (omega arith),
    ))

mask_headers-IsBytes : (m : Bytes) (ip : ℕ) → IsBytes m → (i : ℕ) → mask_headers m ip i < 2 ^ 8
unfolding mask_headers
mask_headers-IsBytes m ip b i = ground (arith, b (ip + (i - 8)))

module _ (m m' : Bytes) (ip ip' : ℕ) (b : IsBytes m) (b' : IsBytes m')
    (same : SameInvariant m ip m' ip') where
  mask_headers-same :
      (i : ℕ) → i < pseudo_bytes → (i == 40) ≡ false → mask_headers m ip i ≡ mask_headers m' ip' i
  unfolding mask_headers
  mask_headers-same i lt ne = ground (arith, same (i - 8))

  -- The word with the QP number.
  qpn-same :
      bth_qpn (load_bth (mask_headers m ip) pseudo_bth)
      ≡ bth_qpn (load_bth (mask_headers m' ip') pseudo_bth)
  qpn-same =
      rw
        (
          load-qpn (mask_headers m ip) pseudo_bth (λ i _ _. mask_headers-IsBytes m ip b (36 + i)),
          load-qpn (mask_headers m' ip') pseudo_bth
              (λ i _ _. mask_headers-IsBytes m' ip' b' (36 + i)),
          mask_headers-same 41 (omega arith) refl,
          mask_headers-same 42 (omega arith) refl,
          mask_headers-same 43 (omega arith) refl,
        )
        refl

  pseudo_packet-same : (i : ℕ) → i < pseudo_bytes → pseudo_packet m ip i ≡ pseudo_packet m' ip' i
  unfolding pseudo_packet store32
  pseudo_packet-same i lt = rw qpn-same (ground (arith, mask_headers-same i lt))

-- The CRC is taken over the same bytes for two packets, with IPv4 headers at any two places, that agree on
-- all of the 56 bytes from there on that are not variant.
pub icrc_input-same :
    (m m' : Bytes) (ip ip' : ℕ)
    → IsBytes m
    → IsBytes m'
    → SameInvariant m ip m' ip'
    → icrc_input m ip ≡ icrc_input m' ip'
unfolding icrc_input
icrc_input-same m m' ip ip' b b' same =
    bytes_at-same (pseudo_packet m ip) (pseudo_packet m' ip') 0 pseudo_bytes
      (pseudo_packet-same m m' ip ip' b b' same)
