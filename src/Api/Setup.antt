-- ===== src/Api/Setup.antt =====
-- The constructor of `ctcm_context` in src/main.cpp: the parser's registration of its fields, then a new tracker.
use libconntrack_cm.Base.{ℕ, ◌≤◌, ◌≡◌, refl, false, Option, some, ltb, arith}
use libconntrack_cm.Packet.{DynfieldOffsets}
use libconntrack_cm.Parser.Context.{
  MbufDynfield, Construction, built, runtime_error, failed_assertion, bth_dynfield, mad_dynfield,
  parser_context, parser_context-registers,
}
use libconntrack_cm.Tracker.{get_source_qpn}
use libconntrack_cm.Cnp.{success}
use libconntrack_cm.Api.{Context, ctcm_create, ctcm_dynfield_offsets, ctcm_query_ipv4}

module _ {ℓ} {State : Type ℓ} (register : MbufDynfield → State → Option ℕ × State) where
  abbrev with_tracker : Construction DynfieldOffsets × State → Construction Context × State
  with_tracker (built offsets, s) = (built (ctcm_create offsets), s)
  with_tracker (runtime_error, s) = (runtime_error, s)
  with_tracker (failed_assertion, s) = (failed_assertion, s)

  unfoldable pub ctcm_context : DynfieldOffsets → State → Construction Context × State
  ctcm_context memory s = with_tracker (parser_context register memory s)

  -- When DPDK registers both fields, the constructor gives a context that reports the two offsets to a caller whose
  -- structure is large enough, without a change of the structure's size, and that answers every query with 0.
  pub ctcm_context-reports :
      (memory : DynfieldOffsets) (s : State) (bth mad : ℕ) (offsets : DynfieldOffsets)
      → (register bth_dynfield s).0 ≡ some bth
      → (register mad_dynfield (register bth_dynfield s).1).0 ≡ some mad
      → 12 ≤ offsets.size
      → (ctcm : Context) × ((ctcm_context memory s).0 ≡ built ctcm)
        × (ctcm_dynfield_offsets ctcm offsets
            ≡ (success, record { size = offsets.size; bth = bth; mad = mad }))
        × ((ip qpn : ℕ) → ctcm_query_ipv4 ctcm ip qpn ≡ 0)
  unfolding ctcm_context ctcm_dynfield_offsets
  ctcm_context-reports memory s bth mad offsets first next large =
      let small : ltb offsets.size 12 ≡ false = ground arith in
      (
        ctcm_create (record { size = 12; bth = bth; mad = mad }),
        rw (parser_context-registers register memory s, first, next) refl,
        rw (ctcm_dynfield_offsets, small) refl,
        λ ip qpn. unfold ctcm_query_ipv4 get_source_qpn in refl,
      )
