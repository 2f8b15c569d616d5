-- ===== src/Protocol/Messages.antt =====
-- The packets of protocol.go that the gateway reads or writes, with the fields that it uses, and
-- encoding/json as an interface.
use gateway_lite.Common.{Bytes, List, Option, bytes_eq, nat_eq, ℕ}
use gateway_lite.Common.Int.{ℤ}

pub record PushConnectReq : Type 0 where
  pub from : Bytes
  pub from_token : ℕ
  pub token : ℕ

pub record PushRsp : Type 0 where
  pub error : ℤ
  pub detail : Bytes

pub record LoginRsp : Type 0 where
  pub error : ℤ
  pub detail : Bytes
  pub user : Bytes
  pub node : Bytes
  pub token : ℕ
  pub ts : ℤ

pub record NatDetectReq : Type 0 where
  pub src_port : ℤ
  pub echo_port : ℤ

pub record NatDetectRsp : Type 0 where
  pub ip : Bytes
  pub port : ℤ
  pub is_public_ip : ℤ

pub record RelayNodeReq : Type 0 where
  pub peer_node : Bytes

pub record RelayNodeRsp : Type 0 where
  pub mode : Bytes
  pub relay_name : Bytes
  pub relay_token : ℕ

pub record ReportBasic : Type 0 where
  pub os : Bytes
  pub mac : Bytes
  pub lan_ip : Bytes
  pub has_ipv4 : ℤ
  pub ipv6 : Bytes
  pub has_upnp_or_natpmp : ℤ
  pub version : Bytes

pub record ReportConnect : Type 0 where
  pub error : Bytes
  pub peer_node : Bytes

pub record ReportLogReq : Type 0 where
  pub file_name : Bytes
  pub offset : ℤ
  pub len : ℤ

pub record AppInfo : Type 0 where
  pub app_name : Bytes
  pub error : Bytes
  pub protocol : Bytes
  pub src_port : ℤ
  pub protocol0 : Bytes
  pub src_port0 : ℤ
  pub nat_type : ℤ
  pub peer_node : Bytes
  pub dst_port : ℤ
  pub dst_host : Bytes
  pub peer_user : Bytes
  pub peer_nat_type : ℤ
  pub peer_ip : Bytes
  pub share_bandwidth : ℤ
  pub relay_node : Bytes
  pub relay_mode : Bytes
  pub link_mode : Bytes
  pub version : Bytes
  pub retry_time : Bytes
  pub connect_time : Bytes
  pub is_active : ℤ
  pub enabled : ℤ

pub record UpdateInfo : Type 0 where
  pub error : ℤ
  pub error_detail : Bytes
  pub url : Bytes

pub record ProfileInfo : Type 0 where
  pub user : Bytes
  pub password : Bytes
  pub email : Bytes
  pub phone : Bytes
  pub token : Bytes
  pub addtime : Bytes

pub record EditNode : Type 0 where
  pub new_name : Bytes
  pub bandwidth : ℤ

pub record QueryPeerInfoReq : Type 0 where
  pub token : ℕ
  pub peer_node : Bytes

pub record QueryPeerInfoRsp : Type 0 where
  pub online : ℤ
  pub version : Bytes
  pub nat_type : ℤ
  pub ipv4 : Bytes
  pub lan_ip : Bytes
  pub has_ipv4 : ℤ
  pub ipv6 : Bytes
  pub has_upnp_or_natpmp : ℤ

pub record SdwanNode : Type 0 where
  pub name : Bytes
  pub ip : Bytes
  pub resource : Bytes
  pub enable : ℤ

pub record SdwanInfo : Type 0 where
  pub id : ℕ
  pub name : Bytes
  pub gateway : Bytes
  pub mode : Bytes
  pub central_node : Bytes
  pub force_relay : ℤ
  pub punch_priority : ℤ
  pub enable : ℤ
  pub tunnel_num : ℤ
  pub mtu : ℤ
  pub nodes : List SdwanNode

-- What `write` is called with; `null` is nil.
pub data Packet : Type 0 where
  null : Packet
  push_rsp_of : PushRsp → Packet
  login_rsp_of : LoginRsp → Packet
  nat_detect_rsp_of : NatDetectRsp → Packet
  relay_node_rsp_of : RelayNodeRsp → Packet
  query_peer_info_rsp_of : QueryPeerInfoRsp → Packet
  sdwan_info_of : SdwanInfo → Packet
  dst_node_online_of : Bytes → Packet
  edit_node_of : EditNode → Packet
  report_log_req_of : ReportLogReq → Packet
  app_info_of : AppInfo → Packet

-- json.Marshal, and json.Unmarshal into each kind of request.
pub record Json : Type 0 where
  pub marshal : Packet → Option Bytes
  pub push_connect_req : Bytes → Option PushConnectReq
  pub login_rsp : Bytes → Option LoginRsp
  pub nat_detect_req : Bytes → Option NatDetectReq
  pub relay_node_req : Bytes → Option RelayNodeReq
  pub report_basic : Bytes → Option ReportBasic
  pub report_connect : Bytes → Option ReportConnect
  pub query_peer_info_req : Bytes → Option QueryPeerInfoReq
