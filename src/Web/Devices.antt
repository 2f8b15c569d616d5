-- ===== src/Web/Devices.antt =====
-- web.go and webmgmt.go: the list of the devices, and the requests that reach an online device
-- through its session.
use gateway_lite.Gateway.{◌>>=◌, ◌>>◌, modify, session, put_session}
use gateway_lite.Web.{wrong_request, ok}
use gateway_lite.Store.Devices.{list_devices_by_user, rename_device}
use gateway_lite.Protocol.NodeId.{node_name_to_id}
use gateway_lite.Common.Int.{ltb_ℤ, pos}
use gateway_lite.Protocol.Constants.{
  push_edit_app, push_switch_app, msg_push, push_edit_node, push_report_apps, push_report_log,
  push_restart,
}
use gateway_lite.Common.Strconv.{format_uint, parse_int, format_int}
use gateway_lite.Protocol.Messages.{
  EditNode, ReportLogReq, edit_node_of, app_info_of, null, report_log_req_of,
}
use gateway_lite.Web.{Host, Request, DeviceInfo, Response, reply, devices_of, error_of, text}
use gateway_lite.Store.Data.{StoreDevice}
use gateway_lite.Gateway.{M, Session, World, gets, pure, write}
use gateway_lite.Common.{
  Bytes, none, some, true, false, [], nat_eq, bytes_eq, utf8, ℕ, Option, List, if◌then◌else◌, keep,
  lookup, map, not, ◌∷◌, any, ◌++◌, ◌==◌, ◌&&◌, ◌*◌,
}
use gateway_lite.Handlers.Relay.{online}

-- A session as it is shown, active.
unfoldable pub online_info : Host → Session → DeviceInfo
online_info host s = record {
  id = format_uint (node_name_to_id s.node);
  name = s.node;
  ip = s.ipv4;
  ipv6 = s.ipv6;
  nat_type = format_int s.nat_type;
  bandwidth = format_int s.share_band_width;
  lan_ip = s.lan_ip;
  mac = s.mac;
  os = s.os;
  is_active = 1;
  version = s.version;
  remark = [];
  removed = 0;
  activetime = host.local_time s.active_time;
  addtime = [];
  is_update = true;
}

-- A stored device as it is shown, not active.
unfoldable pub offline_info : StoreDevice → DeviceInfo
offline_info d = record {
  id = format_uint (node_name_to_id d.name);
  name = d.name;
  ip = d.ipv4;
  ipv6 = d.ipv6;
  nat_type = format_int d.nat_type;
  bandwidth = format_int d.bandwidth;
  lan_ip = d.lan_ip;
  mac = d.mac;
  os = d.os;
  is_active = 0;
  version = d.version;
  remark = d.remark;
  removed = 0;
  activetime = d.activetime;
  addtime = d.addtime;
  is_update = false;
}

-- The sessions of the user, in the order of the loop.
unfoldable pub user_sessions : Host → Bytes → World → List Session
user_sessions host user w =
    keep (λ s. s.user == user) (map (λ (e : _ × _). e.1) (online host.order w))

-- The stored devices of the user whose name no listed session has.
unfoldable pub offline_devices : Host → Bytes → World → List StoreDevice
unfolding user_sessions
offline_devices host user w =
    keep (λ d. not (any (λ s. s.node == d.name) (user_sessions host user w)))
      (list_devices_by_user host.order w.store user)

unfoldable pub device_list : Host → Bytes → World → List DeviceInfo
device_list host user w =
    map (online_info host) (user_sessions host user w)
    ++ map offline_info (offline_devices host user w)

unfoldable pub list_devices : Host → Bytes → M Response
list_devices host user w = reply 200 (devices_of (device_list host user w)) w

-- gWSSessionMgr.allSessions[nodeNameToID(name)]
unfoldable pub find_session : Bytes → M (Option ℕ)
find_session name = gets (λ w. lookup (node_name_to_id name) w.all_sessions)

abbrev pub device_offline : M Response
device_offline = reply 200 (error_of 1 (utf8 "device offline"))

-- A request that needs the session of its device.
unfoldable pub with_session : Bytes → (ℕ → M Response) → M Response
with_session name f = do
  found ← find_session name
  elim found [ none ↦ device_offline | some ref ↦ f ref ]

unfoldable pub pop_rsp : ℕ → Session → List Bytes → M (Option Bytes)
pop_rsp ref s [] = pure none
pop_rsp ref s (b ∷ bs) = do modify (put_session ref (record s { rsp_ch = bs })); pure (some b)

-- The oldest waiting answer, if there is one.
unfoldable pub take_rsp : ℕ → M (Option Bytes)
unfolding pop_rsp
take_rsp ref = do s ← session ref; pop_rsp ref s s.rsp_ch

unfoldable pub wait_more : Host → ℕ → Option Bytes → M (Option Bytes)
wait_more host ref (some b) = pure (some b)
wait_more host ref none = do modify host.meanwhile; take_rsp ref

-- The select of an answer and the timeout: none where the time runs out.
unfoldable pub wait_rsp : Host → ℕ → M (Option Bytes)
unfolding wait_more
wait_rsp host ref = do first ← take_rsp ref; wait_more host ref first

abbrev pub timeout : Bytes
timeout = utf8 "timeout"

-- An answer as it came, or the timeout.
abbrev pub answer_with : ℕ → Option Bytes → M Response
answer_with status none = reply status (error_of 9 timeout)
answer_with status (some msg) = reply 200 (text msg)

unfoldable pub list_apps : Host → Request → M Response
list_apps host r = with_session r.name (λ ref. do
  write host.json ref msg_push push_report_apps null
  answer ← wait_rsp host ref
  answer_with 404 answer)

abbrev pub log_request : Request → ReportLogReq
log_request r =
    let n = parse_int 64 r.len in
    record {
      file_name = utf8 "openp2p.log";
      offset = parse_int 64 r.offset;
      len = if ltb_ℤ (pos 0) n then n else pos (64 * 1024);
    }

-- At most one stale answer is taken out before the request goes to the device.
unfoldable pub get_device_log : Host → Request → M Response
get_device_log host r = with_session r.name (λ ref. do
  stale ← take_rsp ref
  write host.json ref msg_push push_report_log (report_log_req_of (log_request r))
  answer ← wait_rsp host ref
  answer_with 200 answer)

-- What editApp and switchApp share: the app goes to the device under this type.
unfoldable pub push_app : Host → ℕ → Request → ℕ → M Response
push_app host sub_type r ref = elim (host.web_json.app_info r.body) [
  | none ↦ reply 406 (text [])
  | some app ↦ (do write host.json ref msg_push sub_type (app_info_of app); reply 200 (text []))
]

unfoldable pub edit_app : Host → Request → M Response
unfolding push_app
edit_app host r = with_session r.name (push_app host push_edit_app r)

unfoldable pub switch_app : Host → Request → M Response
unfolding push_app
switch_app host r = with_session r.name (push_app host push_switch_app r)

unfoldable pub restart_device : Host → Request → M Response
restart_device host r =
    with_session r.name (λ ref. do write host.json ref msg_push push_restart null; reply 200 ok)

-- gStore.renameDevice under its condition
unfoldable pub rename : Host → Bytes → Bytes → World → World
rename host name new_name w =
    if not (new_name == []) && not (new_name == name)
    then record w { store = rename_device host.disk w.store name new_name }
    else w

unfoldable pub push_edit : Host → EditNode → Option ℕ → M (Unit {0})
push_edit host req none = pure tt
push_edit host req (some ref) = write host.json ref msg_push push_edit_node (edit_node_of req)

unfoldable pub edit_node : Host → Request → M Response
unfolding rename push_edit
edit_node host r = elim (host.web_json.edit_node r.body) [
  | none ↦ reply 400 (error_of 1 wrong_request)
  | some req ↦ (do
    found ← find_session r.name
    push_edit host req found
    modify (rename host r.name req.new_name)
    reply 200 ok)
]
