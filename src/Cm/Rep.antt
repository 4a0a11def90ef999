-- ===== src/Cm/Rep.antt =====
-- Table 110, REP message contents, of src/ibta_vol1_c12.h.
use libconntrack_cm.Iba.{Field, MemField}
use libconntrack_cm.Cm.{cm_field32_loc, cm_field64_loc, cm_field8_loc, cm_field_bloc, cm_field_mloc}

abbrev pub cm_rep_local_comm_id : Field
cm_rep_local_comm_id = cm_field32_loc 0 32

abbrev pub cm_rep_remote_comm_id : Field
cm_rep_remote_comm_id = cm_field32_loc 4 32

abbrev pub cm_rep_local_q_key : Field
cm_rep_local_q_key = cm_field32_loc 8 32

abbrev pub cm_rep_local_qpn : Field
cm_rep_local_qpn = cm_field32_loc 12 24

abbrev pub cm_rep_local_ee_context_number : Field
cm_rep_local_ee_context_number = cm_field32_loc 16 24

abbrev pub cm_rep_starting_psn : Field
cm_rep_starting_psn = cm_field32_loc 20 24

abbrev pub cm_rep_responder_resources : Field
cm_rep_responder_resources = cm_field8_loc 24 8

abbrev pub cm_rep_initiator_depth : Field
cm_rep_initiator_depth = cm_field8_loc 25 8

abbrev pub cm_rep_target_ack_delay : Field
cm_rep_target_ack_delay = cm_field8_loc 26 5

abbrev pub cm_rep_failover_accepted : Field
cm_rep_failover_accepted = cm_field_bloc 26 5 2

abbrev pub cm_rep_end_to_end_flow_control : Field
cm_rep_end_to_end_flow_control = cm_field_bloc 26 7 1

abbrev pub cm_rep_rnr_retry_count : Field
cm_rep_rnr_retry_count = cm_field8_loc 27 3

abbrev pub cm_rep_srq : Field
cm_rep_srq = cm_field_bloc 27 3 1

abbrev pub cm_rep_local_ca_guid : Field
cm_rep_local_ca_guid = cm_field64_loc 28

abbrev pub cm_rep_private_data : MemField
cm_rep_private_data = cm_field_mloc 36 1568
