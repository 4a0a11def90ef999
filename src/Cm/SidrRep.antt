-- ===== src/Cm/SidrRep.antt =====
-- Table 120, SIDR_REP message contents, of src/ibta_vol1_c12.h.
use libconntrack_cm.Iba.{Field, MemField}
use libconntrack_cm.Cm.{cm_field32_loc, cm_field64_loc, cm_field8_loc, cm_field_mloc}

abbrev pub cm_sidr_rep_requestid : Field
cm_sidr_rep_requestid = cm_field32_loc 0 32

abbrev pub cm_sidr_rep_status : Field
cm_sidr_rep_status = cm_field8_loc 4 8

abbrev pub cm_sidr_rep_additional_information_length : Field
cm_sidr_rep_additional_information_length = cm_field8_loc 5 8

abbrev pub cm_sidr_rep_qpn : Field
cm_sidr_rep_qpn = cm_field32_loc 8 24

abbrev pub cm_sidr_rep_serviceid : Field
cm_sidr_rep_serviceid = cm_field64_loc 12

abbrev pub cm_sidr_rep_q_key : Field
cm_sidr_rep_q_key = cm_field32_loc 20 32

abbrev pub cm_sidr_rep_additional_information : MemField
cm_sidr_rep_additional_information = cm_field_mloc 24 576

abbrev pub cm_sidr_rep_private_data : MemField
cm_sidr_rep_private_data = cm_field_mloc 96 1088
