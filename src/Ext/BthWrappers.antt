-- ===== src/Ext/BthWrappers.antt =====
-- src/rxe_hdr.h: the accessors of the base transport header that take a packet, `pkt_bth_qpn` for `bth_qpn` of
-- the source and so on: each acts on the header at the packet's own offset.
use libconntrack_cm.Base.{ℕ, Bool}
use libconntrack_cm.Packet.Memory.{Bytes}
use libconntrack_cm.Bth.{
  load_bth, store_bth, bth_opcode, bth_set_opcode, bth_se, bth_set_se, bth_mig, bth_set_mig,
  bth_pad, bth_set_pad, bth_tver, bth_set_tver, bth_pkey, bth_set_pkey, bth_qpn, bth_set_qpn,
  bth_fecn, bth_set_fecn, bth_becn, bth_set_becn, bth_resv6a, bth_set_resv6a, bth_ack, bth_set_ack,
  bth_set_resv7, bth_psn, bth_set_psn,
}
use libconntrack_cm.Ext.{PktInfo, bth_addr}

unfoldable pub pkt_bth_opcode : Bytes → PktInfo → ℕ
pkt_bth_opcode m pkt = bth_opcode (load_bth m (bth_addr pkt))

unfoldable pub pkt_bth_set_opcode : Bytes → PktInfo → ℕ → Bytes
pkt_bth_set_opcode m pkt opcode =
    store_bth m (bth_addr pkt) (bth_set_opcode (load_bth m (bth_addr pkt)) opcode)

unfoldable pub pkt_bth_se : Bytes → PktInfo → Bool
pkt_bth_se m pkt = bth_se (load_bth m (bth_addr pkt))

unfoldable pub pkt_bth_set_se : Bytes → PktInfo → Bool → Bytes
pkt_bth_set_se m pkt se = store_bth m (bth_addr pkt) (bth_set_se (load_bth m (bth_addr pkt)) se)

unfoldable pub pkt_bth_mig : Bytes → PktInfo → Bool
pkt_bth_mig m pkt = bth_mig (load_bth m (bth_addr pkt))

unfoldable pub pkt_bth_set_mig : Bytes → PktInfo → Bool → Bytes
pkt_bth_set_mig m pkt mig = store_bth m (bth_addr pkt) (bth_set_mig (load_bth m (bth_addr pkt)) mig)

unfoldable pub pkt_bth_pad : Bytes → PktInfo → ℕ
pkt_bth_pad m pkt = bth_pad (load_bth m (bth_addr pkt))

unfoldable pub pkt_bth_set_pad : Bytes → PktInfo → ℕ → Bytes
pkt_bth_set_pad m pkt pad = store_bth m (bth_addr pkt) (bth_set_pad (load_bth m (bth_addr pkt)) pad)

unfoldable pub pkt_bth_tver : Bytes → PktInfo → ℕ
pkt_bth_tver m pkt = bth_tver (load_bth m (bth_addr pkt))

unfoldable pub pkt_bth_set_tver : Bytes → PktInfo → ℕ → Bytes
pkt_bth_set_tver m pkt tver =
    store_bth m (bth_addr pkt) (bth_set_tver (load_bth m (bth_addr pkt)) tver)

unfoldable pub pkt_bth_pkey : Bytes → PktInfo → ℕ
pkt_bth_pkey m pkt = bth_pkey (load_bth m (bth_addr pkt))

unfoldable pub pkt_bth_set_pkey : Bytes → PktInfo → ℕ → Bytes
pkt_bth_set_pkey m pkt pkey =
    store_bth m (bth_addr pkt) (bth_set_pkey (load_bth m (bth_addr pkt)) pkey)

unfoldable pub pkt_bth_qpn : Bytes → PktInfo → ℕ
pkt_bth_qpn m pkt = bth_qpn (load_bth m (bth_addr pkt))

unfoldable pub pkt_bth_set_qpn : Bytes → PktInfo → ℕ → Bytes
pkt_bth_set_qpn m pkt qpn = store_bth m (bth_addr pkt) (bth_set_qpn (load_bth m (bth_addr pkt)) qpn)

unfoldable pub pkt_bth_fecn : Bytes → PktInfo → Bool
pkt_bth_fecn m pkt = bth_fecn (load_bth m (bth_addr pkt))

unfoldable pub pkt_bth_set_fecn : Bytes → PktInfo → Bool → Bytes
pkt_bth_set_fecn m pkt fecn =
    store_bth m (bth_addr pkt) (bth_set_fecn (load_bth m (bth_addr pkt)) fecn)

unfoldable pub pkt_bth_becn : Bytes → PktInfo → Bool
pkt_bth_becn m pkt = bth_becn (load_bth m (bth_addr pkt))

unfoldable pub pkt_bth_set_becn : Bytes → PktInfo → Bool → Bytes
pkt_bth_set_becn m pkt becn =
    store_bth m (bth_addr pkt) (bth_set_becn (load_bth m (bth_addr pkt)) becn)

unfoldable pub pkt_bth_resv6a : Bytes → PktInfo → ℕ
pkt_bth_resv6a m pkt = bth_resv6a (load_bth m (bth_addr pkt))

unfoldable pub pkt_bth_set_resv6a : Bytes → PktInfo → Bytes
pkt_bth_set_resv6a m pkt = store_bth m (bth_addr pkt) (bth_set_resv6a (load_bth m (bth_addr pkt)))

unfoldable pub pkt_bth_ack : Bytes → PktInfo → Bool
pkt_bth_ack m pkt = bth_ack (load_bth m (bth_addr pkt))

unfoldable pub pkt_bth_set_ack : Bytes → PktInfo → Bool → Bytes
pkt_bth_set_ack m pkt ack = store_bth m (bth_addr pkt) (bth_set_ack (load_bth m (bth_addr pkt)) ack)

unfoldable pub pkt_bth_set_resv7 : Bytes → PktInfo → Bytes
pkt_bth_set_resv7 m pkt = store_bth m (bth_addr pkt) (bth_set_resv7 (load_bth m (bth_addr pkt)))

unfoldable pub pkt_bth_psn : Bytes → PktInfo → ℕ
pkt_bth_psn m pkt = bth_psn (load_bth m (bth_addr pkt))

unfoldable pub pkt_bth_set_psn : Bytes → PktInfo → ℕ → Bytes
pkt_bth_set_psn m pkt psn = store_bth m (bth_addr pkt) (bth_set_psn (load_bth m (bth_addr pkt)) psn)
