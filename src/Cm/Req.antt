-- ===== src/Cm/Req.antt =====
-- Table 106, REQ message contents, of src/ibta_vol1_c12.h.
use libconntrack_cm.Iba.{Field, MemField}
use libconntrack_cm.Cm.{
  cm_field16_loc, cm_field32_loc, cm_field64_loc, cm_field8_loc, cm_field_bloc, cm_field_mloc,
}

abbrev pub cm_req_local_comm_id : Field
cm_req_local_comm_id = cm_field32_loc 0 32

abbrev pub cm_req_service_id : Field
cm_req_service_id = cm_field64_loc 8

abbrev pub cm_req_local_ca_guid : Field
cm_req_local_ca_guid = cm_field64_loc 16

abbrev pub cm_req_local_q_key : Field
cm_req_local_q_key = cm_field32_loc 28 32

abbrev pub cm_req_local_qpn : Field
cm_req_local_qpn = cm_field32_loc 32 24

abbrev pub cm_req_responder_resources : Field
cm_req_responder_resources = cm_field8_loc 35 8

abbrev pub cm_req_local_eecn : Field
cm_req_local_eecn = cm_field32_loc 36 24

abbrev pub cm_req_initiator_depth : Field
cm_req_initiator_depth = cm_field8_loc 39 8

abbrev pub cm_req_remote_eecn : Field
cm_req_remote_eecn = cm_field32_loc 40 24

abbrev pub cm_req_remote_cm_response_timeout : Field
cm_req_remote_cm_response_timeout = cm_field8_loc 43 5

abbrev pub cm_req_transport_service_type : Field
cm_req_transport_service_type = cm_field_bloc 43 5 2

abbrev pub cm_req_end_to_end_flow_control : Field
cm_req_end_to_end_flow_control = cm_field_bloc 43 7 1

abbrev pub cm_req_starting_psn : Field
cm_req_starting_psn = cm_field32_loc 44 24

abbrev pub cm_req_local_cm_response_timeout : Field
cm_req_local_cm_response_timeout = cm_field8_loc 47 5

abbrev pub cm_req_retry_count : Field
cm_req_retry_count = cm_field_bloc 47 5 3

abbrev pub cm_req_partition_key : Field
cm_req_partition_key = cm_field16_loc 48 16

abbrev pub cm_req_path_packet_payload_mtu : Field
cm_req_path_packet_payload_mtu = cm_field8_loc 50 4

abbrev pub cm_req_rdc_exists : Field
cm_req_rdc_exists = cm_field_bloc 50 4 1

abbrev pub cm_req_rnr_retry_count : Field
cm_req_rnr_retry_count = cm_field_bloc 50 5 3

abbrev pub cm_req_max_cm_retries : Field
cm_req_max_cm_retries = cm_field8_loc 51 4

abbrev pub cm_req_srq : Field
cm_req_srq = cm_field_bloc 51 4 1

abbrev pub cm_req_extended_transport_type : Field
cm_req_extended_transport_type = cm_field_bloc 51 5 3

abbrev pub cm_req_primary_local_port_lid : Field
cm_req_primary_local_port_lid = cm_field16_loc 52 16

abbrev pub cm_req_primary_remote_port_lid : Field
cm_req_primary_remote_port_lid = cm_field16_loc 54 16

abbrev pub cm_req_primary_local_port_gid : MemField
cm_req_primary_local_port_gid = cm_field_mloc 56 128

abbrev pub cm_req_primary_remote_port_gid : MemField
cm_req_primary_remote_port_gid = cm_field_mloc 72 128

abbrev pub cm_req_primary_flow_label : Field
cm_req_primary_flow_label = cm_field32_loc 88 20

abbrev pub cm_req_primary_packet_rate : Field
cm_req_primary_packet_rate = cm_field_bloc 91 2 6

abbrev pub cm_req_primary_traffic_class : Field
cm_req_primary_traffic_class = cm_field8_loc 92 8

abbrev pub cm_req_primary_hop_limit : Field
cm_req_primary_hop_limit = cm_field8_loc 93 8

abbrev pub cm_req_primary_sl : Field
cm_req_primary_sl = cm_field8_loc 94 4

abbrev pub cm_req_primary_subnet_local : Field
cm_req_primary_subnet_local = cm_field_bloc 94 4 1

abbrev pub cm_req_primary_local_ack_timeout : Field
cm_req_primary_local_ack_timeout = cm_field8_loc 95 5

abbrev pub cm_req_alternate_local_port_lid : Field
cm_req_alternate_local_port_lid = cm_field16_loc 96 16

abbrev pub cm_req_alternate_remote_port_lid : Field
cm_req_alternate_remote_port_lid = cm_field16_loc 98 16

abbrev pub cm_req_alternate_local_port_gid : MemField
cm_req_alternate_local_port_gid = cm_field_mloc 100 128

abbrev pub cm_req_alternate_remote_port_gid : MemField
cm_req_alternate_remote_port_gid = cm_field_mloc 116 128

abbrev pub cm_req_alternate_flow_label : Field
cm_req_alternate_flow_label = cm_field32_loc 132 20

abbrev pub cm_req_alternate_packet_rate : Field
cm_req_alternate_packet_rate = cm_field_bloc 135 2 6

abbrev pub cm_req_alternate_traffic_class : Field
cm_req_alternate_traffic_class = cm_field8_loc 136 8

abbrev pub cm_req_alternate_hop_limit : Field
cm_req_alternate_hop_limit = cm_field8_loc 137 8

abbrev pub cm_req_alternate_sl : Field
cm_req_alternate_sl = cm_field8_loc 138 4

abbrev pub cm_req_alternate_subnet_local : Field
cm_req_alternate_subnet_local = cm_field_bloc 138 4 1

abbrev pub cm_req_alternate_local_ack_timeout : Field
cm_req_alternate_local_ack_timeout = cm_field8_loc 139 5

abbrev pub cm_req_sap_supported : Field
cm_req_sap_supported = cm_field_bloc 139 5 1

abbrev pub cm_req_private_data : MemField
cm_req_private_data = cm_field_mloc 140 736
