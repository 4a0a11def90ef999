-- ===== src/Tests/Fields.antt =====
-- Fields of a REQ that are set and read.
use libconntrack_cm.Base.{◌%◌, ◌^◌, ◌≡◌, inl, refl, arith}
use libconntrack_cm.Iba.{iba_get, genmask, iba_field_bloc, iba_field8_loc, iba_field32_loc}
use libconntrack_cm.Iba.Set.{iba_set}
use libconntrack_cm.Iba.Run.{IsRun, byte, single}
use libconntrack_cm.Iba.Apart.{IsApart, iba_set-assigns}
use libconntrack_cm.Cm.{cm_field32_loc, cm_field8_loc}
use libconntrack_cm.Cm.Req.{cm_req_responder_resources, cm_req_local_qpn}
use libconntrack_cm.Tests.Packets.{req, req-IsBytes}

-- The QP number and the byte after it share a word of 32 bits.
qpn-IsRun : IsRun cm_req_local_qpn 8 24 0
unfolding genmask iba_field32_loc cm_field32_loc
qpn-IsRun = record { width = single; bits = refl; mask = refl; inhabited = omega arith }

resources-IsRun : IsRun cm_req_responder_resources 0 8 0
unfolding genmask iba_field_bloc iba_field8_loc cm_field8_loc
resources-IsRun = record { width = byte; bits = refl; mask = refl; inhabited = omega arith }

qpn-IsApart : IsApart cm_req_responder_resources 0 8 cm_req_local_qpn 8 24
unfolding iba_field32_loc cm_field32_loc iba_field_bloc iba_field8_loc cm_field8_loc
qpn-IsApart = inl (omega arith)

-- The byte is set, and the word of 32 bits that holds it is read.
iba_set-assigns_example :
    (iba_get cm_req_responder_resources (iba_set cm_req_responder_resources req.bytes 62 0x199) 62
      ≡ 0x199 % 2 ^ 8)
    × (iba_get cm_req_local_qpn (iba_set cm_req_responder_resources req.bytes 62 0x199) 62
        ≡ iba_get cm_req_local_qpn req.bytes 62)
unfolding cm_field32_loc cm_field8_loc
iba_set-assigns_example =
    iba_set-assigns cm_req_responder_resources cm_req_local_qpn 0 8 0 8 24 0 req.bytes 62 0x199
      resources-IsRun qpn-IsRun req-IsBytes qpn-IsApart
