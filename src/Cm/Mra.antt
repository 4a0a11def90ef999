-- ===== src/Cm/Mra.antt =====
-- Table 107, MRA message contents, of src/ibta_vol1_c12.h.
use libconntrack_cm.Iba.{Field, MemField}
use libconntrack_cm.Cm.{cm_field32_loc, cm_field8_loc, cm_field_mloc}

abbrev pub cm_mra_local_comm_id : Field
cm_mra_local_comm_id = cm_field32_loc 0 32

abbrev pub cm_mra_remote_comm_id : Field
cm_mra_remote_comm_id = cm_field32_loc 4 32

abbrev pub cm_mra_message_mraed : Field
cm_mra_message_mraed = cm_field8_loc 8 2

abbrev pub cm_mra_service_timeout : Field
cm_mra_service_timeout = cm_field8_loc 9 5

abbrev pub cm_mra_private_data : MemField
cm_mra_private_data = cm_field_mloc 10 1776
