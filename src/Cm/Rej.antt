-- ===== src/Cm/Rej.antt =====
-- Table 108, REJ message contents, of src/ibta_vol1_c12.h.
use libconntrack_cm.Iba.{Field, MemField}
use libconntrack_cm.Cm.{cm_field16_loc, cm_field32_loc, cm_field8_loc, cm_field_mloc}

abbrev pub cm_rej_local_comm_id : Field
cm_rej_local_comm_id = cm_field32_loc 0 32

abbrev pub cm_rej_remote_comm_id : Field
cm_rej_remote_comm_id = cm_field32_loc 4 32

abbrev pub cm_rej_message_rejected : Field
cm_rej_message_rejected = cm_field8_loc 8 2

abbrev pub cm_rej_rejected_info_length : Field
cm_rej_rejected_info_length = cm_field8_loc 9 7

abbrev pub cm_rej_reason : Field
cm_rej_reason = cm_field16_loc 10 16

abbrev pub cm_rej_ari : MemField
cm_rej_ari = cm_field_mloc 12 576

abbrev pub cm_rej_private_data : MemField
cm_rej_private_data = cm_field_mloc 84 1184
