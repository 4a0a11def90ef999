-- ===== src/Parser/Context.antt =====
-- The constructor of `parser_context` in src/parser.cpp, which registers the two dynamic fields with DPDK.
-- `rte_mbuf_dynfield_register` is a parameter: it takes a field and DPDK's own state, and gives the field's offset,
-- or nothing for a negative number, and the new state.
use libconntrack_cm.Base.{
  ℕ, ◌+◌, ◌≡◌, refl, inl, inr, Option-cases, Option, none, some, List, [], ◌∷◌, ◌==◌, if◌then◌else◌,
}
use libconntrack_cm.Packet.{DynfieldOffsets}
use Prim.Native.String.{String}

-- `struct rte_mbuf_dynfield`, as far as the constructor fills it.
pub record MbufDynfield : Type 0 where
  pub name : String
  pub size : ℕ
  pub align : ℕ

-- How the constructor ends.
pub data Construction {ℓ} (A : Type ℓ) : Type ℓ where
  built : A → Construction A
  runtime_error failed_assertion : Construction A

abbrev pub bth_dynfield : MbufDynfield
bth_dynfield = record { name = "BTH"; size = 2; align = 2 }

abbrev pub mad_dynfield : MbufDynfield
mad_dynfield = record { name = "IB_MAD_HDR"; size = 2; align = 2 }

-- The `switch` on the index of the field; another index is the `assert(0)`.
unfoldable pub assign_offset : ℕ → ℕ → DynfieldOffsets → Option DynfieldOffsets
assign_offset i ret offsets =
    if i == 0
    then some (record offsets { bth = ret })
    else if i == 1
    then some (record offsets { mad = ret })
    else none

module _ {ℓ} {State : Type ℓ} (register : MbufDynfield → State → Option ℕ × State) where
  -- The loop over the fields.
  unfoldable pub register_fields :
      ℕ → List MbufDynfield → DynfieldOffsets → State → Construction DynfieldOffsets × State
  unfolding assign_offset
  register_fields i [] offsets s = (built offsets, s)
  register_fields i (field ∷ rest) offsets s =
      let (ret, s') = register field s in
      elim ret [
        | none ↦ (runtime_error, s')
        | some offset ↦ elim (assign_offset i offset offsets) [
          | none ↦ (failed_assertion, s')
          | some offsets' ↦ register_fields (i + 1) rest offsets' s'
        ]
      ]

  abbrev pub with_size : Construction DynfieldOffsets × State → Construction DynfieldOffsets × State
  with_size (built offsets, s) = (built (record offsets { size = 12 }), s)
  with_size (runtime_error, s) = (runtime_error, s)
  with_size (failed_assertion, s) = (failed_assertion, s)

  -- The member starts with whatever the memory held.
  unfoldable pub parser_context : DynfieldOffsets → State → Construction DynfieldOffsets × State
  unfolding register_fields
  parser_context memory s =
      with_size (register_fields 0 (bth_dynfield ∷ mad_dynfield ∷ []) memory s)

  -- Two registrations, without a loop: the second is tried only after the first has succeeded.
  abbrev second : ℕ → Option ℕ × State → Construction DynfieldOffsets × State
  second bth (none, s) = (runtime_error, s)
  second bth (some mad, s) = (built (record { size = 12; bth = bth; mad = mad }), s)

  abbrev pub both_fields : Option ℕ × State → Construction DynfieldOffsets × State
  both_fields (none, s) = (runtime_error, s)
  both_fields (some bth, s) = second bth (register mad_dynfield s)

  -- The constructor registers the field of the BTH and then that of the MAD, throws when either fails, and
  -- otherwise holds the two offsets and its own size, whatever the memory held; it never meets its assertion.
  pub parser_context-registers :
      (memory : DynfieldOffsets) (s : State)
      → parser_context memory s ≡ both_fields (register bth_dynfield s)
  unfolding parser_context
  parser_context-registers memory s =
      let (ret, s') = register bth_dynfield s in
      elim (Option-cases ret) [
        | inl e ↦ rw (parser_context, register_fields, e) refl
        | inr (b, e) ↦
            let (ret', s'') = register mad_dynfield s' in
            elim (Option-cases ret') [
              | inl e' ↦ rw (parser_context, register_fields, e, register_fields, e') refl
              | inr (o, e') ↦ rw (parser_context, register_fields, e, register_fields, e') refl
            ]
      ]
