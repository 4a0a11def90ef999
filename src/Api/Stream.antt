-- ===== src/Api/Stream.antt =====
-- A stream of packets through the C interface: each is parsed and then processed, as a user of the library
-- does, and the tracker sees the CM messages among them.
use libconntrack_cm.Base.{
  ◌+◌, ◌<◌, ◌≡◌, ◌≢◌, ◌^◌, refl, ◌∙◌, true, false, none, some, List, [], ◌∷◌, Bool-cases, inl, inr,
  if◌then◌else◌,
}
use libconntrack_cm.Packet.{
  Result, ok, stop, ◌>>=◌, Dpdk, DynfieldOffsets, Mbuf, mbuf_udp, ctcm_mbuf_get_mad,
}
use libconntrack_cm.Packet.Memory.{IsBytes}
use libconntrack_cm.Parser.{parse_packet}
use libconntrack_cm.Parser.Accepts.{parse_packet-accepts}
use libconntrack_cm.Parser.Headers.{has_mad}
use libconntrack_cm.Cnp.{Status, success}
use libconntrack_cm.Store.{Tracker, and_then}
use libconntrack_cm.Tracker.Dispatch.{Direction, process, process_all}
use libconntrack_cm.Api.{Context, ctcm_parse_packet, ctcm_process_packet, process_mad}

-- A UDP packet with room for the headers up to a MAD, and for the first byte of a MAD, at offsets that fit 16 bits.
pub record IsUdpPacket (d : Dpdk) (packet : Mbuf) : Type 0 where
  pub bytes : IsBytes packet.bytes
  pub is_udp : mbuf_udp d packet ≡ ok (packet.l2_len + packet.l3_len)
  pub inside : packet.l2_len + packet.l3_len + 28 < packet.pkt_len
  pub fits : packet.l2_len + packet.l3_len + 28 < 2 ^ 16

abbrev pub AllUdp : Dpdk → List (Mbuf × Direction) → Type 0
AllUdp d [] = Unit {0}
AllUdp d ((packet, dir) ∷ rest) = IsUdpPacket d packet × AllUdp d rest

-- The packet with the dynamic fields that the parser writes.
pub parsed : Dpdk → DynfieldOffsets → Mbuf → Mbuf
parsed d parser packet = elim (parse_packet d parser packet) [
  | ok (mad, packet') ↦ packet'
  | stop e ↦ packet
]

-- The CM messages of a stream, as the parser leaves them.
unfoldable pub messages : Dpdk → DynfieldOffsets → List (Mbuf × Direction) → List (Mbuf × Direction)
messages d parser [] = []
messages d parser ((packet, dir) ∷ rest) =
    if has_mad packet.bytes (packet.l2_len + packet.l3_len)
    then (parsed d parser packet, dir) ∷ messages d parser rest
    else messages d parser rest

-- `ctcm_parse_packet` and then `ctcm_process_packet`, for one packet and for each of a stream.
unfoldable pub handle : Dpdk → Context → Mbuf → Direction → Result Context
handle d ctcm packet dir = do
  (parse_status, packet') ← ctcm_parse_packet d ctcm packet
  (status, ctcm') ← ctcm_process_packet d ctcm dir packet'
  ok ctcm'

unfoldable pub handle_all : Dpdk → List (Mbuf × Direction) → Context → Result Context
handle_all d [] ctcm = ok ctcm
handle_all d ((packet, dir) ∷ rest) ctcm = handle d ctcm packet dir >>= handle_all d rest

-- A context with the tracker that a computation returns.
abbrev pub with_tracker : Context → Result (Unit {0} × Tracker) → Result Context
with_tracker ctcm (ok (done, t)) = ok (record ctcm { tracker = t })
with_tracker ctcm (stop e) = stop e

-- The end of `process_mad`.
abbrev set_tracker : Context → Unit {0} × Tracker → Result (Status × Context)
set_tracker ctcm x = ok (success, record ctcm { tracker = x.1 })

with_tracker-status :
    (ctcm : Context) (r : Result (Unit {0} × Tracker))
    → ((r >>= set_tracker ctcm) >>= λ x. ok x.1) ≡ with_tracker ctcm r
with_tracker-status ctcm (ok (done, t)) = refl
with_tracker-status ctcm (stop e) = refl

module _ (d : Dpdk) (ctcm : Context) (packet : Mbuf) (dir : Direction) (udp : IsUdpPacket d packet)
    (apart : ctcm.parser.bth ≢ ctcm.parser.mad) where
  handle-message :
      has_mad packet.bytes (packet.l2_len + packet.l3_len) ≡ true
      → handle d ctcm packet dir
        ≡ with_tracker ctcm (process d ctcm.parser (parsed d ctcm.parser packet) dir ctcm.tracker)
  unfolding handle ctcm_parse_packet ctcm_process_packet process_mad parsed
  handle-message is =
      let (packet', returns, bth, recorded, bytes) =
        parse_packet-accepts d ctcm.parser packet udp.bytes udp.is_udp apart udp.inside udp.fits in
      let found : ctcm_mbuf_get_mad ctcm.parser packet'
          ≡ ok (some (packet.l2_len + packet.l3_len + 28)) =
        recorded ∙ rw is refl in
      rw (returns, parsed)
        (rw found (with_tracker-status ctcm (process d ctcm.parser packet' dir ctcm.tracker)))

  handle-other :
      has_mad packet.bytes (packet.l2_len + packet.l3_len) ≡ false
      → handle d ctcm packet dir ≡ ok ctcm
  unfolding handle ctcm_parse_packet ctcm_process_packet process_mad
  handle-other other =
      let (packet', returns, bth, recorded, bytes) =
        parse_packet-accepts d ctcm.parser packet udp.bytes udp.is_udp apart udp.inside udp.fits in
      let null : ctcm_mbuf_get_mad ctcm.parser packet' ≡ ok none = recorded ∙ rw other refl in
      rw returns (rw null refl)

with_tracker-bind :
    (ctcm : Context) (r : Result (Unit {0} × Tracker)) (next : Context → Result Context)
    (run : Tracker → Result (Unit {0} × Tracker))
    → ((t : Tracker) → next (record ctcm { tracker = t }) ≡ with_tracker ctcm (run t))
    → (with_tracker ctcm r >>= next) ≡ with_tracker ctcm (and_then r (λ _. run))
with_tracker-bind ctcm (ok (done, t)) next run same = same t
with_tracker-bind ctcm (stop e) next run same = refl

-- Each packet of the stream is a UDP packet of bytes that is longer than the headers up to a MAD, whose offsets fit 16
-- bits, and the context's two dynamic fields differ. When each packet is parsed and then processed, in order, the
-- outcome is that of the tracker on the CM messages among them alone, as the parser leaves them: the same failure, or
-- the context with the tracker that `process_all` returns.
pub handle_all-process_all :
    (d : Dpdk) (ms : List (Mbuf × Direction)) (ctcm : Context)
    → AllUdp d ms
    → ctcm.parser.bth ≢ ctcm.parser.mad
    → handle_all d ms ctcm
      ≡ with_tracker ctcm (process_all d ctcm.parser (messages d ctcm.parser ms) ctcm.tracker)
unfolding handle_all process_all messages
handle_all-process_all d [] ctcm all apart = refl
handle_all-process_all d ((packet, dir) ∷ ms) ctcm (udp, all) apart =
    elim (Bool-cases (has_mad packet.bytes (packet.l2_len + packet.l3_len))) [
      | inl is ↦
          rw (handle-message d ctcm packet dir udp apart is, is)
            (with_tracker-bind ctcm
              (process d ctcm.parser (parsed d ctcm.parser packet) dir ctcm.tracker)
              (handle_all d ms) (process_all d ctcm.parser (messages d ctcm.parser ms))
              λ t. handle_all-process_all d ms (record ctcm { tracker = t }) all apart)
      | inr other ↦
          rw (handle-other d ctcm packet dir udp apart other, other)
            (handle_all-process_all d ms ctcm all apart)
    ]
