-- ===== src/Cm/SidrReq.antt =====
-- Table 119, SIDR_REQ message contents, of src/ibta_vol1_c12.h.
use libconntrack_cm.Iba.{Field, MemField}
use libconntrack_cm.Cm.{cm_field16_loc, cm_field32_loc, cm_field64_loc, cm_field_mloc}

abbrev pub cm_sidr_req_requestid : Field
cm_sidr_req_requestid = cm_field32_loc 0 32

abbrev pub cm_sidr_req_partition_key : Field
cm_sidr_req_partition_key = cm_field16_loc 4 16

abbrev pub cm_sidr_req_serviceid : Field
cm_sidr_req_serviceid = cm_field64_loc 8

abbrev pub cm_sidr_req_private_data : MemField
cm_sidr_req_private_data = cm_field_mloc 16 1728
