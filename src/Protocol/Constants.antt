-- ===== src/Protocol/Constants.antt =====
-- The message types of protocol.go. The sub types keep the name of their constant without `Msg`.
use gateway_lite.Common.{bytes_eq, nat_eq, ℕ}

abbrev pub msg_login : ℕ
msg_login = 0

abbrev pub msg_heartbeat : ℕ
msg_heartbeat = 1

abbrev pub msg_nat_detect : ℕ
msg_nat_detect = 2

abbrev pub msg_push : ℕ
msg_push = 3

abbrev pub msg_relay : ℕ
msg_relay = 5

abbrev pub msg_report : ℕ
msg_report = 6

abbrev pub msg_query : ℕ
msg_query = 7

abbrev pub msg_sdwan : ℕ
msg_sdwan = 8

abbrev pub push_rsp : ℕ
push_rsp = 0

abbrev pub push_connect_req : ℕ
push_connect_req = 1

abbrev pub push_connect_rsp : ℕ
push_connect_rsp = 2

abbrev pub push_handshake_start : ℕ
push_handshake_start = 3

abbrev pub push_add_relay_tunnel_req : ℕ
push_add_relay_tunnel_req = 4

abbrev pub push_add_relay_tunnel_rsp : ℕ
push_add_relay_tunnel_rsp = 5

abbrev pub push_update : ℕ
push_update = 6

abbrev pub push_report_apps : ℕ
push_report_apps = 7

abbrev pub push_underlay_connect : ℕ
push_underlay_connect = 8

abbrev pub push_edit_app : ℕ
push_edit_app = 9

abbrev pub push_switch_app : ℕ
push_switch_app = 10

abbrev pub push_restart : ℕ
push_restart = 11

abbrev pub push_edit_node : ℕ
push_edit_node = 12

abbrev pub push_app_key : ℕ
push_app_key = 13

abbrev pub push_report_log : ℕ
push_report_log = 14

abbrev pub push_dst_node_online : ℕ
push_dst_node_online = 15

abbrev pub push_report_goroutine : ℕ
push_report_goroutine = 16

abbrev pub push_report_mem_apps : ℕ
push_report_mem_apps = 17

abbrev pub push_server_side_save_mem_app : ℕ
push_server_side_save_mem_app = 18

abbrev pub push_check_remote_service : ℕ
push_check_remote_service = 19

abbrev pub push_spec_tunnel : ℕ
push_spec_tunnel = 20

abbrev pub push_report_heap : ℕ
push_report_heap = 21

abbrev pub push_sd_wan_refresh : ℕ
push_sd_wan_refresh = 22

abbrev pub push_nat4_detect : ℕ
push_nat4_detect = 23

abbrev pub relay_node_req : ℕ
relay_node_req = 0

abbrev pub relay_node_rsp : ℕ
relay_node_rsp = 1

abbrev pub report_basic : ℕ
report_basic = 0

abbrev pub report_query : ℕ
report_query = 1

abbrev pub report_connect : ℕ
report_connect = 2

abbrev pub report_apps : ℕ
report_apps = 3

abbrev pub report_log : ℕ
report_log = 4

abbrev pub report_mem_apps : ℕ
report_mem_apps = 5

abbrev pub report_response : ℕ
report_response = 6

abbrev pub report_basic_rsp : ℕ
report_basic_rsp = 7

abbrev pub query_peer_info_req : ℕ
query_peer_info_req = 0

abbrev pub query_peer_info_rsp : ℕ
query_peer_info_rsp = 1

abbrev pub sdwan_info_req : ℕ
sdwan_info_req = 0

abbrev pub sdwan_info_rsp : ℕ
sdwan_info_rsp = 1

abbrev pub max_direct_try : ℕ
max_direct_try = 3
