-- ===== src/Ext/Width.antt =====
-- A header that is loaded from bytes has fields of their widths, and every setter of src/rxe_hdr.h keeps them so.
use libconntrack_cm.Base.{ℕ, ◌+◌, ◌-◌, ◌^◌, arith, bit_and, bit_or, Bool, true, false}
use libconntrack_cm.Packet.Memory.{
  Bytes, IsBytes, load16-lt, load32-lt, swap16-lt, swap32, swap32-lt,
}
use libconntrack_cm.Base.Bits.{bit_and-lt, bit_or-lt}
use libconntrack_cm.Bth.{
  Bth, IsBth, load_bth, bth_set_opcode, bth_set_se, bth_set_mig, bth_set_pad, bth_set_tver,
  bth_set_pkey, bth_set_qpn, bth_set_fecn, bth_set_becn, bth_set_ack, bth_set_psn, bth_set_resv6a,
  bth_set_resv7,
}

pub load_bth-IsBth : (m : Bytes) (a : ℕ) → IsBytes m → IsBth (load_bth m a)
unfolding load_bth
load_bth-IsBth m a b = record {
  opcode = b a;
  flags = b (a + 1);
  pkey = load16-lt m (a + 2) b;
  qpn = load32-lt m (a + 4) b;
  apsn = load32-lt m (a + 8) b;
}

-- Each setter keeps the widths of the fields.
module _ (b : Bth) (wide : IsBth b) where
  pub bth_set_opcode-IsBth : (v : ℕ) → IsBth (bth_set_opcode b v)
  unfolding bth_set_opcode
  bth_set_opcode-IsBth v = record {
    opcode = omega arith;
    flags = wide.flags;
    pkey = wide.pkey;
    qpn = wide.qpn;
    apsn = wide.apsn;
  }

  pub bth_set_se-IsBth : (v : Bool) → IsBth (bth_set_se b v)
  unfolding bth_set_se
  bth_set_se-IsBth true = record {
    opcode = wide.opcode;
    flags = bit_or-lt 8 b.flags 0x80 wide.flags (omega arith);
    pkey = wide.pkey;
    qpn = wide.qpn;
    apsn = wide.apsn;
  }
  bth_set_se-IsBth false = record {
    opcode = wide.opcode;
    flags = bit_and-lt 8 b.flags (2 ^ 8 - 1 - 0x80) wide.flags;
    pkey = wide.pkey;
    qpn = wide.qpn;
    apsn = wide.apsn;
  }

  pub bth_set_mig-IsBth : (v : Bool) → IsBth (bth_set_mig b v)
  unfolding bth_set_mig
  bth_set_mig-IsBth true = record {
    opcode = wide.opcode;
    flags = bit_or-lt 8 b.flags 0x40 wide.flags (omega arith);
    pkey = wide.pkey;
    qpn = wide.qpn;
    apsn = wide.apsn;
  }
  bth_set_mig-IsBth false = record {
    opcode = wide.opcode;
    flags = bit_and-lt 8 b.flags (2 ^ 8 - 1 - 0x40) wide.flags;
    pkey = wide.pkey;
    qpn = wide.qpn;
    apsn = wide.apsn;
  }

  pub bth_set_pad-IsBth : (v : ℕ) → IsBth (bth_set_pad b v)
  unfolding bth_set_pad
  bth_set_pad-IsBth v = record {
    opcode = wide.opcode;
    flags = omega arith;
    pkey = wide.pkey;
    qpn = wide.qpn;
    apsn = wide.apsn;
  }

  pub bth_set_tver-IsBth : (v : ℕ) → IsBth (bth_set_tver b v)
  unfolding bth_set_tver
  bth_set_tver-IsBth v = record {
    opcode = wide.opcode;
    flags = omega arith;
    pkey = wide.pkey;
    qpn = wide.qpn;
    apsn = wide.apsn;
  }

  pub bth_set_pkey-IsBth : (v : ℕ) → IsBth (bth_set_pkey b v)
  unfolding bth_set_pkey
  bth_set_pkey-IsBth v = record {
    opcode = wide.opcode;
    flags = wide.flags;
    pkey = swap16-lt v;
    qpn = wide.qpn;
    apsn = wide.apsn;
  }

  pub bth_set_qpn-IsBth : (v : ℕ) → IsBth (bth_set_qpn b v)
  unfolding bth_set_qpn
  bth_set_qpn-IsBth v = record {
    opcode = wide.opcode;
    flags = wide.flags;
    pkey = wide.pkey;
    qpn = swap32-lt (bit_or (bit_and 0x00ff_ffff v) (bit_and 0xff00_0000 (swap32 b.qpn)));
    apsn = wide.apsn;
  }

  pub bth_set_fecn-IsBth : (v : Bool) → IsBth (bth_set_fecn b v)
  unfolding bth_set_fecn
  bth_set_fecn-IsBth true = record {
    opcode = wide.opcode;
    flags = wide.flags;
    pkey = wide.pkey;
    qpn = bit_or-lt 32 b.qpn (swap32 0x8000_0000) wide.qpn (swap32-lt 0x8000_0000);
    apsn = wide.apsn;
  }
  bth_set_fecn-IsBth false = record {
    opcode = wide.opcode;
    flags = wide.flags;
    pkey = wide.pkey;
    qpn = bit_and-lt 32 b.qpn (2 ^ 32 - 1 - swap32 0x8000_0000) wide.qpn;
    apsn = wide.apsn;
  }

  pub bth_set_becn-IsBth : (v : Bool) → IsBth (bth_set_becn b v)
  unfolding bth_set_becn
  bth_set_becn-IsBth true = record {
    opcode = wide.opcode;
    flags = wide.flags;
    pkey = wide.pkey;
    qpn = bit_or-lt 32 b.qpn (swap32 0x4000_0000) wide.qpn (swap32-lt 0x4000_0000);
    apsn = wide.apsn;
  }
  bth_set_becn-IsBth false = record {
    opcode = wide.opcode;
    flags = wide.flags;
    pkey = wide.pkey;
    qpn = bit_and-lt 32 b.qpn (2 ^ 32 - 1 - swap32 0x4000_0000) wide.qpn;
    apsn = wide.apsn;
  }

  pub bth_set_ack-IsBth : (v : Bool) → IsBth (bth_set_ack b v)
  unfolding bth_set_ack
  bth_set_ack-IsBth true = record {
    opcode = wide.opcode;
    flags = wide.flags;
    pkey = wide.pkey;
    qpn = wide.qpn;
    apsn = bit_or-lt 32 b.apsn (swap32 0x8000_0000) wide.apsn (swap32-lt 0x8000_0000);
  }
  bth_set_ack-IsBth false = record {
    opcode = wide.opcode;
    flags = wide.flags;
    pkey = wide.pkey;
    qpn = wide.qpn;
    apsn = bit_and-lt 32 b.apsn (2 ^ 32 - 1 - swap32 0x8000_0000) wide.apsn;
  }

  pub bth_set_resv6a-IsBth : IsBth (bth_set_resv6a b)
  unfolding bth_set_resv6a
  bth_set_resv6a-IsBth = record {
    opcode = wide.opcode;
    flags = wide.flags;
    pkey = wide.pkey;
    qpn = swap32-lt 0xc0ff_ffff;
    apsn = wide.apsn;
  }

  pub bth_set_resv7-IsBth : IsBth (bth_set_resv7 b)
  unfolding bth_set_resv7
  bth_set_resv7-IsBth = record {
    opcode = wide.opcode;
    flags = wide.flags;
    pkey = wide.pkey;
    qpn = wide.qpn;
    apsn = bit_and-lt 32 b.apsn (2 ^ 32 - 1 - swap32 0x7f00_0000) wide.apsn;
  }

  pub bth_set_psn-IsBth : (v : ℕ) → IsBth (bth_set_psn b v)
  unfolding bth_set_psn
  bth_set_psn-IsBth v = record {
    opcode = wide.opcode;
    flags = wide.flags;
    pkey = wide.pkey;
    qpn = wide.qpn;
    apsn = swap32-lt (bit_or (bit_and 0x00ff_ffff v) (bit_and 0xff00_0000 (swap32 b.apsn)));
  }
