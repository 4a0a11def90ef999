-- ===== src/Cm/Apr.antt =====
-- Table 116, APR message contents, of src/ibta_vol1_c12.h.
use libconntrack_cm.Iba.{Field, MemField}
use libconntrack_cm.Cm.{cm_field32_loc, cm_field8_loc, cm_field_mloc}

abbrev pub cm_apr_local_comm_id : Field
cm_apr_local_comm_id = cm_field32_loc 0 32

abbrev pub cm_apr_remote_comm_id : Field
cm_apr_remote_comm_id = cm_field32_loc 4 32

abbrev pub cm_apr_additional_information_length : Field
cm_apr_additional_information_length = cm_field8_loc 8 8

abbrev pub cm_apr_ar_status : Field
cm_apr_ar_status = cm_field8_loc 9 8

abbrev pub cm_apr_additional_information : MemField
cm_apr_additional_information = cm_field_mloc 12 576

abbrev pub cm_apr_private_data : MemField
cm_apr_private_data = cm_field_mloc 84 1184
