-- ===== src/Tests/Extended.antt =====
-- The extended transport headers on the REQ packet, whose opcode places a DETH and then the payload.
use libconntrack_cm.Base.{ℕ, ◌+◌, ◌%◌, ◌^◌, ◌<◌, ◌-◌, ◌≤◌, ◌≡◌, ◌⊎◌, inl, true, arith}
use libconntrack_cm.Bth.{bth_pad, load_bth}
use libconntrack_cm.Bth.Assign.{decode_bth}
use libconntrack_cm.Ext.{
  OpcodeInfo, PktInfo, HdrType, rxe_deth, rxe_aeth, rxe_lrh, rxe_grh, rxe_bth, rxe_reth, rxe_atmeth,
  rxe_atmack, rxe_ieth, rxe_rdeth, rxe_immdt, rxe_payload, bth_addr, rxe_icrc_size, payload_addr,
  payload_size,
}
use libconntrack_cm.Ext.Headers.{
  rdeth_een, rdeth_set_een, deth_set_qkey, deth_set_sqp, reth_set_va, reth_set_rkey, reth_set_len,
  atmeth_set_va, atmeth_set_rkey, atmeth_set_swap_add, atmeth_set_comp, aeth_set_syn, aeth_set_msn,
  atmack_orig, atmack_set_orig, immdt_imm, immdt_set_imm, ieth_rkey, ieth_set_rkey,
}
use libconntrack_cm.Ext.Decode.{decode_deth, decode_reth, decode_atmeth}
use libconntrack_cm.Ext.Ack.{decode_aeth}
use libconntrack_cm.Ext.Assign.{ext_set-assigns}
use libconntrack_cm.Ext.Field.{
  deth_sqp_field, immdt_imm_field, hdr_type, hdr_bytes, pkt_get, pkt_set,
}
use libconntrack_cm.Ext.Frame.{pkt_set-keeps_bth, pkt_get-pkt_set_apart}
use libconntrack_cm.Ext.Payload.{payload_size-exact}
use libconntrack_cm.Ext.Stored.{IsAssigned, pkt_bth_set-assigns}
use libconntrack_cm.Ext.BthWrappers.{
  pkt_bth_set_opcode, pkt_bth_set_se, pkt_bth_set_mig, pkt_bth_set_pad, pkt_bth_set_tver,
  pkt_bth_set_pkey, pkt_bth_set_qpn, pkt_bth_set_fecn, pkt_bth_set_becn, pkt_bth_set_resv6a,
  pkt_bth_set_ack, pkt_bth_set_resv7, pkt_bth_set_psn,
}
use libconntrack_cm.Tests.Packets.{req, req-IsBytes}

-- The places of an unreliable datagram with immediate data, for every opcode.
abbrev places : HdrType → ℕ
places rxe_lrh = 0
places rxe_grh = 0
places rxe_bth = 0
places rxe_reth = 0
places rxe_aeth = 0
places rxe_atmeth = 0
places rxe_atmack = 0
places rxe_ieth = 0
places rxe_rdeth = 0
places rxe_deth = 12
places rxe_immdt = 20
places rxe_payload = 24

abbrev opcodes : ℕ → OpcodeInfo
opcodes op = record { mask = 0; length = 24; offset = places }

-- The header of the REQ stands at byte 42.
abbrev info : PktInfo
info = record {
  rxe = 0;
  qp = 0;
  wqe = 0;
  hdr = 40;
  mask = 0;
  psn = 0;
  pkey_index = 0;
  paylen = 280;
  port_num = 1;
  opcode = 0x65;
  offset = 2;
}

after_bth : 12 ≤ places (hdr_type deth_sqp_field)
unfolding hdr_type
after_bth = omega arith

pkt_set-keeps_bth_example :
    load_bth (pkt_set opcodes deth_sqp_field req.bytes info 7) (bth_addr info)
    ≡ load_bth req.bytes (bth_addr info)
pkt_set-keeps_bth_example = pkt_set-keeps_bth opcodes deth_sqp_field req.bytes info 7 after_bth

before_immdt :
    places (hdr_type deth_sqp_field) + hdr_bytes deth_sqp_field ≤ places (hdr_type immdt_imm_field)
unfolding hdr_type hdr_bytes
before_immdt = omega arith

pkt_get-pkt_set_apart_example :
    pkt_get opcodes immdt_imm_field (pkt_set opcodes deth_sqp_field req.bytes info 7) info
    ≡ pkt_get opcodes immdt_imm_field req.bytes info
pkt_get-pkt_set_apart_example =
    pkt_get-pkt_set_apart opcodes deth_sqp_field immdt_imm_field req.bytes info 7 (inl before_immdt)

ext_set-assigns_example :
    ((decode_deth (deth_set_qkey req.bytes 62 0x0102_0304_0506_0708) 62
        ≡ record (decode_deth req.bytes 62) { qkey = 0x0102_0304_0506_0708 % 2 ^ 32 })
      × (decode_deth (deth_set_sqp req.bytes 62 0x0102_0304_0506_0708) 62
          ≡ record (decode_deth req.bytes 62) { sqp = 0x0102_0304_0506_0708 % 2 ^ 24 }))
    × ((decode_reth (reth_set_va req.bytes 62 0x0102_0304_0506_0708) 62
          ≡ record (decode_reth req.bytes 62) { va = 0x0102_0304_0506_0708 % 2 ^ 64 })
        × (decode_reth (reth_set_rkey req.bytes 62 0x0102_0304_0506_0708) 62
            ≡ record (decode_reth req.bytes 62) { rkey = 0x0102_0304_0506_0708 % 2 ^ 32 })
        × (decode_reth (reth_set_len req.bytes 62 0x0102_0304_0506_0708) 62
            ≡ record (decode_reth req.bytes 62) { len = 0x0102_0304_0506_0708 % 2 ^ 32 }))
    × ((decode_atmeth (atmeth_set_va req.bytes 62 0x0102_0304_0506_0708) 62
          ≡ record (decode_atmeth req.bytes 62) { va = 0x0102_0304_0506_0708 % 2 ^ 64 })
        × (decode_atmeth (atmeth_set_rkey req.bytes 62 0x0102_0304_0506_0708) 62
            ≡ record (decode_atmeth req.bytes 62) { rkey = 0x0102_0304_0506_0708 % 2 ^ 32 })
        × (decode_atmeth (atmeth_set_swap_add req.bytes 62 0x0102_0304_0506_0708) 62
            ≡ record (decode_atmeth req.bytes 62) { swap_add = 0x0102_0304_0506_0708 % 2 ^ 64 })
        × (decode_atmeth (atmeth_set_comp req.bytes 62 0x0102_0304_0506_0708) 62
            ≡ record (decode_atmeth req.bytes 62) { comp = 0x0102_0304_0506_0708 % 2 ^ 64 }))
    × ((decode_aeth (aeth_set_syn req.bytes 62 0x0102_0304_0506_0708) 62
          ≡ record (decode_aeth req.bytes 62) { syn = 0x0102_0304_0506_0708 % 2 ^ 8 })
        × (decode_aeth (aeth_set_msn req.bytes 62 0x0102_0304_0506_0708) 62
            ≡ record (decode_aeth req.bytes 62) { msn = 0x0102_0304_0506_0708 % 2 ^ 24 }))
    × ((rdeth_een (rdeth_set_een req.bytes 62 0x0102_0304_0506_0708) 62
          ≡ 0x0102_0304_0506_0708 % 2 ^ 24)
        × (ieth_rkey (ieth_set_rkey req.bytes 62 0x0102_0304_0506_0708) 62
            ≡ 0x0102_0304_0506_0708 % 2 ^ 32)
        × (atmack_orig (atmack_set_orig req.bytes 62 0x0102_0304_0506_0708) 62
            ≡ 0x0102_0304_0506_0708 % 2 ^ 64)
        × (immdt_imm (immdt_set_imm req.bytes 62 0x0102_0304_0506_0708) 62
            ≡ 0x0102_0304_0506_0708 % 2 ^ 32))
ext_set-assigns_example = ext_set-assigns req.bytes 62 0x0102_0304_0506_0708

pkt_bth_set-assigns_example :
    IsAssigned req.bytes
      (bth_addr info)
      5
      (pkt_bth_set_opcode req.bytes info 0x12345)
      (record (decode_bth (load_bth req.bytes (bth_addr info))) { opcode = 0x12345 % 2 ^ 8 })
    × IsAssigned req.bytes
        (bth_addr info)
        5
        (pkt_bth_set_se req.bytes info true)
        (record (decode_bth (load_bth req.bytes (bth_addr info))) { se = true })
    × IsAssigned req.bytes
        (bth_addr info)
        5
        (pkt_bth_set_mig req.bytes info true)
        (record (decode_bth (load_bth req.bytes (bth_addr info))) { mig = true })
    × IsAssigned req.bytes
        (bth_addr info)
        5
        (pkt_bth_set_pad req.bytes info 0x12345)
        (record (decode_bth (load_bth req.bytes (bth_addr info))) { pad = 0x12345 % 4 })
    × IsAssigned req.bytes
        (bth_addr info)
        5
        (pkt_bth_set_tver req.bytes info 0x12345)
        (record (decode_bth (load_bth req.bytes (bth_addr info))) { tver = 0x12345 % 16 })
    × IsAssigned req.bytes
        (bth_addr info)
        5
        (pkt_bth_set_pkey req.bytes info 0x12345)
        (record (decode_bth (load_bth req.bytes (bth_addr info))) { pkey = 0x12345 % 2 ^ 16 })
    × IsAssigned req.bytes
        (bth_addr info)
        5
        (pkt_bth_set_fecn req.bytes info true)
        (record (decode_bth (load_bth req.bytes (bth_addr info))) { fecn = true })
    × IsAssigned req.bytes
        (bth_addr info)
        5
        (pkt_bth_set_becn req.bytes info true)
        (record (decode_bth (load_bth req.bytes (bth_addr info))) { becn = true })
    × IsAssigned req.bytes
        (bth_addr info)
        5
        (pkt_bth_set_qpn req.bytes info 0x12345)
        (record (decode_bth (load_bth req.bytes (bth_addr info))) { qpn = 0x12345 % 2 ^ 24 })
    × IsAssigned req.bytes
        (bth_addr info)
        5
        (pkt_bth_set_ack req.bytes info true)
        (record (decode_bth (load_bth req.bytes (bth_addr info))) { ack = true })
    × IsAssigned req.bytes
        (bth_addr info)
        5
        (pkt_bth_set_resv7 req.bytes info)
        (record (decode_bth (load_bth req.bytes (bth_addr info))) { resv7 = 0 })
    × IsAssigned req.bytes
        (bth_addr info)
        5
        (pkt_bth_set_psn req.bytes info 0x12345)
        (record (decode_bth (load_bth req.bytes (bth_addr info))) { psn = 0x12345 % 2 ^ 24 })
    × IsAssigned req.bytes
        (bth_addr info)
        5
        (pkt_bth_set_resv6a req.bytes info)
        (record (decode_bth (load_bth req.bytes (bth_addr info))) {
          fecn = true;
          becn = true;
          resv6a = 0;
          qpn = 2 ^ 24 - 1;
        })
pkt_bth_set-assigns_example =
    pkt_bth_set-assigns req.bytes info 0x12345 5 true req-IsBytes (inl (omega arith))

payload_size-exact_example :
    (let size = payload_size opcodes req.bytes info in
      let trailer = bth_pad (load_bth req.bytes (bth_addr info)) + rxe_icrc_size in
      ((places rxe_payload + trailer ≤ 280)
        × (payload_addr opcodes info + size + trailer ≡ bth_addr info + 280)
        × (size ≤ 280))
      ⊎ ((280 < places rxe_payload + trailer) × (2 ^ 63 ≤ size) × (size < 2 ^ 64)))
payload_size-exact_example = payload_size-exact opcodes req.bytes info (omega arith) (omega arith)
