-- ===== src/Cm.antt =====
-- src/ibta_vol1_c12.h: the layout macros of the CM messages. Each message has a module below, with a
-- definition for each field, of the same name. A message begins with the MAD header.
pub mod Read
pub mod Req
pub mod Mra
pub mod Rej
pub mod Rep
pub mod Rtu
pub mod Dreq
pub mod Drep
pub mod Lap
pub mod Apr
pub mod SidrReq
pub mod SidrRep
use libconntrack_cm.Base.{ℕ, ◌+◌}
use libconntrack_cm.Iba.{
  Field, MemField, iba_field_bloc, iba_field8_loc, iba_field16_loc, iba_field32_loc,
  iba_field64_loc, iba_field_mloc,
}

-- `sizeof(struct ib_mad_hdr)`.
abbrev pub mad_hdr_bytes : ℕ
mad_hdr_bytes = 24

unfoldable pub cm_field_bloc : ℕ → ℕ → ℕ → Field
unfolding iba_field_bloc
cm_field_bloc byte_offset bits_offset width =
    iba_field_bloc (byte_offset + mad_hdr_bytes) bits_offset width

unfoldable pub cm_field8_loc : ℕ → ℕ → Field
unfolding iba_field8_loc
cm_field8_loc byte_offset width = iba_field8_loc (byte_offset + mad_hdr_bytes) width

unfoldable pub cm_field16_loc : ℕ → ℕ → Field
unfolding iba_field16_loc
cm_field16_loc byte_offset width = iba_field16_loc (byte_offset + mad_hdr_bytes) width

unfoldable pub cm_field32_loc : ℕ → ℕ → Field
unfolding iba_field32_loc
cm_field32_loc byte_offset width = iba_field32_loc (byte_offset + mad_hdr_bytes) width

unfoldable pub cm_field64_loc : ℕ → Field
unfolding iba_field64_loc
cm_field64_loc byte_offset = iba_field64_loc (byte_offset + mad_hdr_bytes)

unfoldable pub cm_field_mloc : ℕ → ℕ → MemField
unfolding iba_field_mloc
cm_field_mloc byte_offset width = iba_field_mloc (byte_offset + mad_hdr_bytes) width
