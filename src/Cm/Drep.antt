-- ===== src/Cm/Drep.antt =====
-- Table 113, DREP message contents, of src/ibta_vol1_c12.h.
use libconntrack_cm.Iba.{Field, MemField}
use libconntrack_cm.Cm.{cm_field32_loc, cm_field_mloc}

abbrev pub cm_drep_local_comm_id : Field
cm_drep_local_comm_id = cm_field32_loc 0 32

abbrev pub cm_drep_remote_comm_id : Field
cm_drep_remote_comm_id = cm_field32_loc 4 32

abbrev pub cm_drep_private_data : MemField
cm_drep_private_data = cm_field_mloc 8 1792
