-- ===== src/Tracker/Message.antt =====
-- What the handlers of src/cm_connection_tracker.cpp read of a packet: the place of its MAD, the
-- attribute ID, and the address that makes a communication ID a flow key.
use libconntrack_cm.Base.{ℕ, ◌+◌, none, some}
use libconntrack_cm.Packet.{
  null_access, Result, ok, stop, Dpdk, DynfieldOffsets, Mbuf, ctcm_mbuf_get_mad, mbuf_ip,
}
use libconntrack_cm.Packet
use libconntrack_cm.Packet.Memory.{load32}
use libconntrack_cm.Iba.{iba_get16}
use libconntrack_cm.Store.{CmFlowKey}

-- The MAD header that `parser.mbuf_mad` gives, when a handler reads through it.
unfoldable pub mad_header : DynfieldOffsets → Mbuf → Result ℕ
unfolding ctcm_mbuf_get_mad
mad_header parser p =
    Packet.◌>>=◌ (ctcm_mbuf_get_mad parser p)
      λ mad. elim mad [ none ↦ stop null_access | some msg ↦ ok msg ]

-- `attr_id` stands 16 bytes into the MAD header.
abbrev pub attr_id_offset : ℕ
attr_id_offset = 16

unfoldable pub get_attr_id : DynfieldOffsets → Mbuf → Result ℕ
unfolding mad_header iba_get16
get_attr_id parser p =
    Packet.◌>>=◌ (mad_header parser p) λ msg. ok (iba_get16 p.bytes (msg + attr_id_offset))

-- The places of `saddr` and `daddr` in the IPv4 header.
abbrev pub saddr_offset : ℕ
saddr_offset = 12

abbrev pub daddr_offset : ℕ
daddr_offset = 16

unfoldable pub from_dest : Dpdk → Mbuf → ℕ → Result CmFlowKey
unfolding mbuf_ip load32
from_dest d p remote_id =
    Packet.◌>>=◌ (mbuf_ip d p) λ ip. ok (load32 p.bytes (ip + daddr_offset), remote_id)

unfoldable pub from_src : Dpdk → Mbuf → ℕ → Result CmFlowKey
unfolding mbuf_ip load32
from_src d p remote_id =
    Packet.◌>>=◌ (mbuf_ip d p) λ ip. ok (load32 p.bytes (ip + saddr_offset), remote_id)
