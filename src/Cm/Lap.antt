-- ===== src/Cm/Lap.antt =====
-- Table 115, LAP message contents, of src/ibta_vol1_c12.h.
use libconntrack_cm.Iba.{Field, MemField}
use libconntrack_cm.Cm.{cm_field16_loc, cm_field32_loc, cm_field8_loc, cm_field_bloc, cm_field_mloc}

abbrev pub cm_lap_local_comm_id : Field
cm_lap_local_comm_id = cm_field32_loc 0 32

abbrev pub cm_lap_remote_comm_id : Field
cm_lap_remote_comm_id = cm_field32_loc 4 32

abbrev pub cm_lap_remote_qpn_eecn : Field
cm_lap_remote_qpn_eecn = cm_field32_loc 12 24

abbrev pub cm_lap_remote_cm_response_timeout : Field
cm_lap_remote_cm_response_timeout = cm_field8_loc 15 5

abbrev pub cm_lap_alternate_local_port_lid : Field
cm_lap_alternate_local_port_lid = cm_field16_loc 20 16

abbrev pub cm_lap_alternate_remote_port_lid : Field
cm_lap_alternate_remote_port_lid = cm_field16_loc 22 16

abbrev pub cm_lap_alternate_local_port_gid : MemField
cm_lap_alternate_local_port_gid = cm_field_mloc 24 128

abbrev pub cm_lap_alternate_remote_port_gid : MemField
cm_lap_alternate_remote_port_gid = cm_field_mloc 40 128

abbrev pub cm_lap_alternate_flow_label : Field
cm_lap_alternate_flow_label = cm_field32_loc 56 20

abbrev pub cm_lap_alternate_traffic_class : Field
cm_lap_alternate_traffic_class = cm_field8_loc 59 8

abbrev pub cm_lap_alternate_hop_limit : Field
cm_lap_alternate_hop_limit = cm_field8_loc 60 8

abbrev pub cm_lap_alternate_packet_rate : Field
cm_lap_alternate_packet_rate = cm_field_bloc 61 2 6

abbrev pub cm_lap_alternate_sl : Field
cm_lap_alternate_sl = cm_field8_loc 62 4

abbrev pub cm_lap_alternate_subnet_local : Field
cm_lap_alternate_subnet_local = cm_field_bloc 62 4 1

abbrev pub cm_lap_alternate_local_ack_timeout : Field
cm_lap_alternate_local_ack_timeout = cm_field8_loc 63 5

abbrev pub cm_lap_private_data : MemField
cm_lap_private_data = cm_field_mloc 64 1344
