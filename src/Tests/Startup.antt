-- ===== src/Tests/Startup.antt =====
-- The constructors, with a DPDK that gives one field of two bytes after the other, up to byte 44.
use libconntrack_cm.Base.{ℕ, ◌+◌, ◌≡◌, refl, Option, none, some, ltb, if◌then◌else◌, arith}
use libconntrack_cm.Packet.{DynfieldOffsets}
use libconntrack_cm.Parser.Context.{
  MbufDynfield, built, bth_dynfield, parser_context, both_fields, parser_context-registers,
}
use libconntrack_cm.Cnp.{success}
use libconntrack_cm.Api.{Context, ctcm_dynfield_offsets, ctcm_query_ipv4}
use libconntrack_cm.Api.Setup.{ctcm_context, ctcm_context-reports}

abbrev register : MbufDynfield → ℕ → Option ℕ × ℕ
register field used =
    if ltb (used + field.size) 45 then (some used, used + field.size) else (none, used)

abbrev memory : DynfieldOffsets
memory = record { size = 7; bth = 8; mad = 9 }

abbrev asked : DynfieldOffsets
asked = record { size = 16; bth = 0; mad = 0 }

parser_context-registers_example :
    parser_context register memory 40 ≡ both_fields register (register bth_dynfield 40)
parser_context-registers_example = parser_context-registers register memory 40

ctcm_context-reports_example :
    (ctcm : Context) × ((ctcm_context register memory 40).0 ≡ built ctcm)
    × (ctcm_dynfield_offsets ctcm asked ≡ (success, record { size = 16; bth = 40; mad = 42 }))
    × ((ip qpn : ℕ) → ctcm_query_ipv4 ctcm ip qpn ≡ 0)
ctcm_context-reports_example =
    ctcm_context-reports register memory 40 40 42 asked refl refl (omega arith)
