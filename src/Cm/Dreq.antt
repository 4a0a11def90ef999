-- ===== src/Cm/Dreq.antt =====
-- Table 112, DREQ message contents, of src/ibta_vol1_c12.h.
use libconntrack_cm.Iba.{Field, MemField}
use libconntrack_cm.Cm.{cm_field32_loc, cm_field_mloc}

abbrev pub cm_dreq_local_comm_id : Field
cm_dreq_local_comm_id = cm_field32_loc 0 32

abbrev pub cm_dreq_remote_comm_id : Field
cm_dreq_remote_comm_id = cm_field32_loc 4 32

abbrev pub cm_dreq_remote_qpn_eecn : Field
cm_dreq_remote_qpn_eecn = cm_field32_loc 8 24

abbrev pub cm_dreq_private_data : MemField
cm_dreq_private_data = cm_field_mloc 12 1760
