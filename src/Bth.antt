-- ===== src/Bth.antt =====
-- src/rxe_hdr.h: the base transport header and its accessors, `bth_…` for `__bth_…` of the source. The
-- fields hold what a load of the wire gives on a little-endian host, so `swap16` and `swap32` are
-- `ntohs`, `htons`, `ntohl` and `htonl`.
pub mod Bits
pub mod Flags
pub mod Qpn
pub mod Psn
pub mod Ack
pub mod Init
pub mod Assign
use libconntrack_cm.Base.{
  ℕ, ◌+◌, ◌-◌, ◌*◌, ◌/◌, ◌%◌, ◌^◌, ◌<◌, ◌≡◌, Bool, true, false, not, bit_and, bit_or, ◌==◌,
  if◌then◌else◌,
}
use libconntrack_cm.Packet.Memory.{Bytes, load16, load32, swap16, swap32, store8, store16, store32}

pub record Bth : Type 0 where
  pub opcode : ℕ
  pub flags : ℕ
  pub pkey : ℕ
  pub qpn : ℕ
  pub apsn : ℕ

-- Each field fits its width.
pub record IsBth (b : Bth) : Type 0 where
  pub opcode : b.opcode < 2 ^ 8
  pub flags : b.flags < 2 ^ 8
  pub pkey : b.pkey < 2 ^ 16
  pub qpn : b.qpn < 2 ^ 32
  pub apsn : b.apsn < 2 ^ 32

unfoldable pub load_bth : Bytes → ℕ → Bth
unfolding load16 load32
load_bth m a = record {
  opcode = m a;
  flags = m (a + 1);
  pkey = load16 m (a + 2);
  qpn = load32 m (a + 4);
  apsn = load32 m (a + 8);
}

unfoldable pub store_bth : Bytes → ℕ → Bth → Bytes
unfolding store8 store16 store32
store_bth m a b =
    let m' = store16 (store8 (store8 m a b.opcode) (a + 1) b.flags) (a + 2) b.pkey in
    store32 (store32 m' (a + 4) b.qpn) (a + 8) b.apsn

abbrev pub bth_se_mask : ℕ
bth_se_mask = 0x80

abbrev pub bth_mig_mask : ℕ
bth_mig_mask = 0x40

abbrev pub bth_pad_mask : ℕ
bth_pad_mask = 0x30

abbrev pub bth_tver_mask : ℕ
bth_tver_mask = 0x0f

abbrev pub bth_fecn_mask : ℕ
bth_fecn_mask = 0x8000_0000

abbrev pub bth_becn_mask : ℕ
bth_becn_mask = 0x4000_0000

abbrev pub bth_resv6a_mask : ℕ
bth_resv6a_mask = 0x3f00_0000

abbrev pub bth_qpn_mask : ℕ
bth_qpn_mask = 0x00ff_ffff

abbrev pub bth_ack_mask : ℕ
bth_ack_mask = 0x8000_0000

abbrev pub bth_resv7_mask : ℕ
bth_resv7_mask = 0x7f00_0000

abbrev pub bth_psn_mask : ℕ
bth_psn_mask = 0x00ff_ffff

-- `~mask`, of a byte and of a word.
abbrev pub not8 : ℕ → ℕ
not8 x = 2 ^ 8 - 1 - x

abbrev pub not32 : ℕ → ℕ
not32 x = 2 ^ 32 - 1 - x

-- `0 != x`.
abbrev pub is_nonzero : ℕ → Bool
is_nonzero x = not (0 == x)

unfoldable pub bth_opcode : Bth → ℕ
bth_opcode b = b.opcode

unfoldable pub bth_set_opcode : Bth → ℕ → Bth
bth_set_opcode b opcode = record b { opcode = opcode % 2 ^ 8 }

unfoldable pub bth_se : Bth → Bool
bth_se b = is_nonzero (bit_and bth_se_mask b.flags)

unfoldable pub bth_set_se : Bth → Bool → Bth
bth_set_se b se =
    if se
    then record b { flags = bit_or b.flags bth_se_mask }
    else record b { flags = bit_and b.flags (not8 bth_se_mask) }

unfoldable pub bth_mig : Bth → Bool
bth_mig b = is_nonzero (bit_and bth_mig_mask b.flags)

unfoldable pub bth_set_mig : Bth → Bool → Bth
bth_set_mig b mig =
    if mig
    then record b { flags = bit_or b.flags bth_mig_mask }
    else record b { flags = bit_and b.flags (not8 bth_mig_mask) }

unfoldable pub bth_pad : Bth → ℕ
bth_pad b = bit_and bth_pad_mask b.flags / 2 ^ 4

unfoldable pub bth_set_pad : Bth → ℕ → Bth
bth_set_pad b pad = record b {
  flags = bit_or (bit_and bth_pad_mask (pad * 2 ^ 4)) (bit_and (not8 bth_pad_mask) b.flags) % 2 ^ 8;
}

unfoldable pub bth_tver : Bth → ℕ
bth_tver b = bit_and bth_tver_mask b.flags

unfoldable pub bth_set_tver : Bth → ℕ → Bth
bth_set_tver b tver = record b {
  flags = bit_or (bit_and bth_tver_mask tver) (bit_and (not8 bth_tver_mask) b.flags) % 2 ^ 8;
}

unfoldable pub bth_pkey : Bth → ℕ
unfolding swap16
bth_pkey b = swap16 b.pkey

unfoldable pub bth_set_pkey : Bth → ℕ → Bth
unfolding swap16
bth_set_pkey b pkey = record b { pkey = swap16 pkey }

unfoldable pub bth_qpn : Bth → ℕ
bth_qpn b = bit_and bth_qpn_mask (swap32 b.qpn)

unfoldable pub bth_set_qpn : Bth → ℕ → Bth
bth_set_qpn b qpn =
    let resvqpn = swap32 b.qpn in
    record b {
      qpn = swap32 (bit_or (bit_and bth_qpn_mask qpn) (bit_and (not32 bth_qpn_mask) resvqpn));
    }

unfoldable pub bth_fecn : Bth → Bool
bth_fecn b = is_nonzero (bit_and (swap32 bth_fecn_mask) b.qpn)

unfoldable pub bth_set_fecn : Bth → Bool → Bth
bth_set_fecn b fecn =
    if fecn
    then record b { qpn = bit_or b.qpn (swap32 bth_fecn_mask) }
    else record b { qpn = bit_and b.qpn (not32 (swap32 bth_fecn_mask)) }

unfoldable pub bth_becn : Bth → Bool
bth_becn b = is_nonzero (bit_and (swap32 bth_becn_mask) b.qpn)

unfoldable pub bth_set_becn : Bth → Bool → Bth
bth_set_becn b becn =
    if becn
    then record b { qpn = bit_or b.qpn (swap32 bth_becn_mask) }
    else record b { qpn = bit_and b.qpn (not32 (swap32 bth_becn_mask)) }

unfoldable pub bth_resv6a : Bth → ℕ
bth_resv6a b = bit_and bth_resv6a_mask (swap32 b.qpn) / 2 ^ 24

unfoldable pub bth_set_resv6a : Bth → Bth
bth_set_resv6a b = record b { qpn = swap32 (not32 bth_resv6a_mask) }

unfoldable pub bth_ack : Bth → Bool
bth_ack b = is_nonzero (bit_and (swap32 bth_ack_mask) b.apsn)

unfoldable pub bth_set_ack : Bth → Bool → Bth
bth_set_ack b ack =
    if ack
    then record b { apsn = bit_or b.apsn (swap32 bth_ack_mask) }
    else record b { apsn = bit_and b.apsn (not32 (swap32 bth_ack_mask)) }

unfoldable pub bth_set_resv7 : Bth → Bth
bth_set_resv7 b = record b { apsn = bit_and b.apsn (not32 (swap32 bth_resv7_mask)) }

unfoldable pub bth_psn : Bth → ℕ
bth_psn b = bit_and bth_psn_mask (swap32 b.apsn)

unfoldable pub bth_set_psn : Bth → ℕ → Bth
bth_set_psn b psn =
    let apsn = swap32 b.apsn in
    record b {
      apsn = swap32 (bit_or (bit_and bth_psn_mask psn) (bit_and (not32 bth_psn_mask) apsn));
    }

-- `bth_init`: every field of the header from the arguments.
unfoldable pub bth_init : ℕ → Bool → Bool → ℕ → ℕ → ℕ → Bool → ℕ → Bth
bth_init opcode se mig pad pkey qpn ack_req psn =
    let padded = bit_and (pad * 2 ^ 4) bth_pad_mask in
    let solicited = if se then bit_or padded bth_se_mask else padded in
    let psn' = bit_and psn bth_psn_mask in
    record {
      opcode = opcode % 2 ^ 8;
      flags = if mig then bit_or solicited bth_mig_mask else solicited;
      pkey = swap16 pkey;
      qpn = swap32 (bit_and qpn bth_qpn_mask);
      apsn = swap32 (if ack_req then bit_or psn' bth_ack_mask else psn');
    }
