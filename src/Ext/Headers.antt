-- ===== src/Ext/Headers.antt =====
-- src/rxe_hdr.h: the extended transport headers and their accessors, `deth_qkey` for `__deth_qkey` of the
-- source and so on. A header is its bytes at an address; a setter gives the memory after it.
use libconntrack_cm.Base.{ℕ, ◌+◌, ◌*◌, ◌/◌, ◌^◌, bit_and, bit_or}
use libconntrack_cm.Packet.Memory.{Bytes, load32, store32}
use libconntrack_cm.Packet.Network.{read_be32, read_be64, write_be32, write_be64}
use libconntrack_cm.Bth.{not32}

abbrev pub rdeth_een_mask : ℕ
rdeth_een_mask = 0x00ff_ffff

abbrev pub deth_sqp_mask : ℕ
deth_sqp_mask = 0x00ff_ffff

abbrev pub aeth_syn_mask : ℕ
aeth_syn_mask = 0xff00_0000

abbrev pub aeth_msn_mask : ℕ
aeth_msn_mask = 0x00ff_ffff

-- Reliable Datagram Extended Transport Header.

unfoldable pub rdeth_een : Bytes → ℕ → ℕ
rdeth_een m arg = bit_and rdeth_een_mask (read_be32 m arg)

unfoldable pub rdeth_set_een : Bytes → ℕ → ℕ → Bytes
rdeth_set_een m arg een = write_be32 m arg (bit_and rdeth_een_mask een)

-- Datagram Extended Transport Header.

unfoldable pub deth_qkey : Bytes → ℕ → ℕ
deth_qkey m arg = read_be32 m arg

unfoldable pub deth_set_qkey : Bytes → ℕ → ℕ → Bytes
deth_set_qkey m arg qkey = write_be32 m arg qkey

unfoldable pub deth_sqp : Bytes → ℕ → ℕ
deth_sqp m arg = bit_and deth_sqp_mask (read_be32 m (arg + 4))

unfoldable pub deth_set_sqp : Bytes → ℕ → ℕ → Bytes
deth_set_sqp m arg sqp = write_be32 m (arg + 4) (bit_and deth_sqp_mask sqp)

-- RDMA Extended Transport Header.

unfoldable pub reth_va : Bytes → ℕ → ℕ
reth_va m arg = read_be64 m arg

unfoldable pub reth_set_va : Bytes → ℕ → ℕ → Bytes
reth_set_va m arg va = write_be64 m arg va

unfoldable pub reth_rkey : Bytes → ℕ → ℕ
reth_rkey m arg = read_be32 m (arg + 8)

unfoldable pub reth_set_rkey : Bytes → ℕ → ℕ → Bytes
reth_set_rkey m arg rkey = write_be32 m (arg + 8) rkey

unfoldable pub reth_len : Bytes → ℕ → ℕ
reth_len m arg = read_be32 m (arg + 12)

unfoldable pub reth_set_len : Bytes → ℕ → ℕ → Bytes
reth_set_len m arg len = write_be32 m (arg + 12) len

-- Atomic Extended Transport Header.

unfoldable pub atmeth_va : Bytes → ℕ → ℕ
atmeth_va m arg = read_be64 m arg

unfoldable pub atmeth_set_va : Bytes → ℕ → ℕ → Bytes
atmeth_set_va m arg va = write_be64 m arg va

unfoldable pub atmeth_rkey : Bytes → ℕ → ℕ
atmeth_rkey m arg = read_be32 m (arg + 8)

unfoldable pub atmeth_set_rkey : Bytes → ℕ → ℕ → Bytes
atmeth_set_rkey m arg rkey = write_be32 m (arg + 8) rkey

unfoldable pub atmeth_swap_add : Bytes → ℕ → ℕ
atmeth_swap_add m arg = read_be64 m (arg + 12)

unfoldable pub atmeth_set_swap_add : Bytes → ℕ → ℕ → Bytes
atmeth_set_swap_add m arg swap_add = write_be64 m (arg + 12) swap_add

unfoldable pub atmeth_comp : Bytes → ℕ → ℕ
atmeth_comp m arg = read_be64 m (arg + 20)

unfoldable pub atmeth_set_comp : Bytes → ℕ → ℕ → Bytes
atmeth_set_comp m arg comp = write_be64 m (arg + 20) comp

-- Ack Extended Transport Header.

unfoldable pub aeth_syn : Bytes → ℕ → ℕ
aeth_syn m arg = bit_and aeth_syn_mask (read_be32 m arg) / 2 ^ 24

unfoldable pub aeth_set_syn : Bytes → ℕ → ℕ → Bytes
aeth_set_syn m arg syn =
    let smsn = read_be32 m arg in
    write_be32 m arg
      (bit_or (bit_and aeth_syn_mask (syn * 2 ^ 24)) (bit_and (not32 aeth_syn_mask) smsn))

unfoldable pub aeth_msn : Bytes → ℕ → ℕ
aeth_msn m arg = bit_and aeth_msn_mask (read_be32 m arg)

unfoldable pub aeth_set_msn : Bytes → ℕ → ℕ → Bytes
aeth_set_msn m arg msn =
    let smsn = read_be32 m arg in
    write_be32 m arg (bit_or (bit_and aeth_msn_mask msn) (bit_and (not32 aeth_msn_mask) smsn))

-- Atomic Ack Extended Transport Header.

unfoldable pub atmack_orig : Bytes → ℕ → ℕ
atmack_orig m arg = read_be64 m arg

unfoldable pub atmack_set_orig : Bytes → ℕ → ℕ → Bytes
atmack_set_orig m arg orig = write_be64 m arg orig

-- Immediate Extended Transport Header.

unfoldable pub immdt_imm : Bytes → ℕ → ℕ
immdt_imm m arg = load32 m arg

unfoldable pub immdt_set_imm : Bytes → ℕ → ℕ → Bytes
immdt_set_imm m arg imm = store32 m arg imm

-- Invalidate Extended Transport Header.

unfoldable pub ieth_rkey : Bytes → ℕ → ℕ
ieth_rkey m arg = read_be32 m arg

unfoldable pub ieth_set_rkey : Bytes → ℕ → ℕ → Bytes
ieth_set_rkey m arg rkey = write_be32 m arg rkey
