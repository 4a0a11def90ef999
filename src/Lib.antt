-- ===== src/Lib.antt =====
-- A model of libconntrack-cm, a library that follows the connections of the RDMA communication manager
-- (CM) in a stream of packets, so that its user can find the QP number of a connection's own side from the
-- address and the QP number of the other side.
--
-- The parts, and the files that model them:
--   Packet: the DPDK packet buffer as the library reads it, the accessors of src/parser.h and the dynamic fields
--     of include/libconntrack-cm.h. Packet/Memory has loads, stores and byte swaps, Packet/Network words in network
--     order.
--   Bth: the base transport header of src/rxe_hdr.h, `bth_…` for `__bth_…`, on a little-endian host.
--   Ext: the extended transport headers of src/rxe_hdr.h. Ext/Headers has the accessors of a header, `deth_qkey`
--     for `__deth_qkey` and so on, Ext/Wrappers and Ext/BthWrappers those of a packet, `pkt_deth_qkey` for
--     `deth_qkey` and so on, and Ext the sizes and the description of a packet.
--   Parser: src/parser.cpp. `parse_packet` finds the BTH and the CM MAD of a UDP packet and records their
--     offsets in the packet's dynamic fields; Parser/Context has the constructor, which registers the fields.
--   Iba, Cm: the field macros of src/iba.h and src/bitfield.h, and the message layouts of src/ibta_vol1_c12.h, one
--     module for each message. Iba has the readers, Iba/Set the writers.
--   Store: the state of src/cm_connection_tracker.h, the flow objects, the two ID maps and the QPN table, and
--     the monad `M` of computations on it.
--   Tracker: src/cm_connection_tracker.cpp. Tracker has the operations on the flow table (`get_flow`, `add_new_flow`,
--     `erase_flow`, `on_established`, `on_disconnected`, `get_source_qpn`), Tracker/Host and
--     Tracker/Net the handlers of the messages that the host sends and that come from the network,
--     Tracker/Dispatch the handler tables, `process_packet` and `process`. Tracker/Total/Conditions has the test,
--     on the maps and a flow, of what each message needs, and Tracker/Table the QPN table as an abstract machine of its own.
--   Cnp: src/cnp.cpp, the congestion notification packets.
--   Api: src/main.cpp, the functions of the C interface on a context; Api/Setup makes the context,
--     and Api/Stream handles a list of packets.
--   Tests: runs on concrete packets.
--
-- How they interact: the user parses a packet (Api, Parser), which leaves the MAD's offset in the packet;
-- processing it (Api) reads that offset (Packet) and hands the packet to the tracker, which reads the message
-- through Iba and Cm, and moves the flow's state. The query reads the tracker's QPN table.
--
-- How the code is modelled: a pointer into a packet is its offset, the null pointer is `none`. A failed
-- `assert` and a null access end a computation with a `Fault`. The shared flow objects are cells of a store
-- and a shared pointer is the cell's number; the hash maps are functions to `Option`. The state of the
-- tracker is passed explicitly by the monad `M`. The library's one loop runs over an array of two fields, and the list of a
-- history is finite, so no fuel is needed, but for the 64 steps that count the trailing zeros of a 64-bit mask.
-- Numbers are unbounded, with the wrap-around of stores and shifts written out.
--
-- What is not modelled: DPDK (packet types, CRC and append are the parameter `Dpdk`, the registration of a dynamic
-- field a parameter of the constructor), the table `rxe_opcode`, which is defined outside the repository and is a
-- parameter, logging, `errno`, the freeing of memory, the generic bit-field functions of src/bitfield.h and the structures
-- of other management classes in src/ib_mad.h, which nothing in the repository calls.
pub mod Base
pub mod Packet
pub mod Bth
pub mod Parser
pub mod Iba
pub mod Cm
pub mod Store
pub mod Tracker
pub mod Cnp
pub mod Ext
pub mod Api
pub mod Tests
