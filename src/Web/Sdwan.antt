-- ===== src/Web/Sdwan.antt =====
-- webmgmt.go: the networks of a user and their members, and the notice to the members' nodes.
use gateway_lite.Gateway.{◌>>=◌, ◌>>◌, gets, modify}
use gateway_lite.Web.{wrong_request, ok}
use gateway_lite.Gateway.Connection.{min_node_name_len}
use gateway_lite.Common.Strconv.{format_uint, parse_uint}
use gateway_lite.Store.Networks.{get_network, list_networks_by_user, delete_network, save_network}
use gateway_lite.Protocol.Constants.{msg_push, push_sd_wan_refresh}
use gateway_lite.Common.Int.{pos}
use gateway_lite.Clock.{unix_epoch, second}
use gateway_lite.Store.VirtualIp.{IpResult, allocated, alloc_virtual_ip, invalid_gateway, only_ipv4}
use gateway_lite.Protocol.NodeId.{node_name_to_id}
use gateway_lite.Protocol.Header.{encode_header, encode_push_header}
use gateway_lite.Web.{
  Host, MemberReq, Request, SaveNetworkReq, Body, Response, member_ip, reply, error_of, networks_of,
  network_id,
}
use gateway_lite.Store.Data.{StoreNetwork, StoreNetworkNode}
use gateway_lite.Gateway.{M, World, pure, write_buff}
use gateway_lite.Common.{
  Bytes, none, some, [], nat_eq, bytes_eq, List, Option, utf8, ℕ, if◌then◌else◌, keep, ◌-◌, ltb,
  not, ◌++◌, ◌==◌, ◌∷◌, length, ◌*◌, ◌||◌, find_first,
}
use gateway_lite.Store.VirtualIp.{allocated, invalid_gateway, only_ipv4, no_free_ip}
use gateway_lite.Web.Devices.{find_session}

-- The push header comes before an empty body.
abbrev pub refresh_message : ℕ → Bytes
refresh_message id =
    encode_header msg_push push_sd_wan_refresh 16
    ++ encode_push_header (record { from = 0; to = id })

unfoldable pub refresh_session : ℕ → Option ℕ → M (Unit {0})
refresh_session id none = pure tt
refresh_session id (some ref) = write_buff ref (refresh_message id)

unfoldable pub push_sdwan_refresh : Bytes → M (Unit {0})
unfolding refresh_session
push_sdwan_refresh node = do found ← find_session node; refresh_session (node_name_to_id node) found

unfoldable pub refresh_all : List StoreNetworkNode → M (Unit {0})
refresh_all [] = pure tt
refresh_all (m ∷ ms) = do push_sdwan_refresh m.name; refresh_all ms

unfoldable pub notify_network_members : StoreNetwork → M (Unit {0})
notify_network_members n = refresh_all n.members

abbrev pub network_not_found : Bytes
network_not_found = utf8 "network not found"

unfoldable pub list_networks : Host → Bytes → M Response
list_networks host user w =
    reply 200 (networks_of (list_networks_by_user host.order w.store user)) w

-- A network that is not the user's counts as not found.
unfoldable pub owned : Bytes → Option StoreNetwork → Option StoreNetwork
owned user none = none
owned user (some n) = if n.user == user then some n else none

-- The network with what the request says.
unfoldable pub fill : SaveNetworkReq → StoreNetwork → StoreNetwork
fill req n = record n {
  name = req.name;
  gateway = req.gateway;
  mode = if req.mode == [] then utf8 "fullmesh" else req.mode;
  central_node = req.central_node;
  force_relay = req.force_relay;
  punch_priority = req.punch_priority;
  enable = req.enable;
  tunnel_num = req.tunnel_num;
  mtu = req.mtu;
}

-- time.Now().UnixNano(), for a time after 1970
abbrev unix_nano : ℕ → ℕ
unix_nano now = now - unix_epoch * second

unfoldable pub new_network : Host → Bytes → SaveNetworkReq → StoreNetwork
new_network host user req = record {
  id = node_name_to_id (user ++ (req.name ++ format_uint (unix_nano host.now)));
  user = user;
  name = [];
  gateway = [];
  mode = [];
  central_node = [];
  force_relay = pos 0;
  punch_priority = pos 0;
  enable = pos 0;
  tunnel_num = pos 0;
  mtu = pos 0;
  members = [];
}

-- gStore.saveNetwork and notifyNetworkMembers, and the answer.
unfoldable pub store_network : Host → StoreNetwork → Body → M Response
store_network host n answer = do
  modify (λ w. record w { store = save_network host.disk w.store n })
  notify_network_members n
  reply 200 answer

-- What follows when the network is known, or not.
unfoldable pub save_filled : Host → SaveNetworkReq → Option StoreNetwork → M Response
save_filled host req none = reply 200 (error_of 3 network_not_found)
save_filled host req (some n) = store_network host (fill req n) (network_id (format_uint n.id))

-- The network that a request means: the user's own under its number, or a new one.
unfoldable pub target : Host → Bytes → SaveNetworkReq → World → Option StoreNetwork
target host user req w =
    if not (req.id == 0)
    then owned user (get_network w.store req.id)
    else some (new_network host user req)

unfoldable pub save_checked : Host → Bytes → SaveNetworkReq → M Response
save_checked host user req =
    if req.gateway == [] || req.name == []
    then reply 400 (error_of 2 (utf8 "name and gateway required"))
    else (do n ← gets (target host user req); save_filled host req n)

unfoldable pub web_save_network : Host → Bytes → Request → M Response
web_save_network host user r = elim (host.web_json.save_network_req r.body) [
  | none ↦ reply 400 (error_of 1 wrong_request)
  | some req ↦ save_checked host user req
]

-- The user's own network under the number in the path.
unfoldable pub own_network : Bytes → Request → World → Option StoreNetwork
own_network user r w = owned user (get_network w.store (parse_uint 64 r.id))

unfoldable pub delete_found : Host → ℕ → Option StoreNetwork → M Response
delete_found host id none = reply 200 (error_of 1 network_not_found)
delete_found host id (some n) = do
  modify (λ w. record w { store = delete_network host.disk w.store id })
  notify_network_members n
  reply 200 ok

unfoldable pub web_delete_network : Host → Bytes → Request → M Response
web_delete_network host user r = do
  n ← gets (own_network user r)
  delete_found host (parse_uint 64 r.id) n

-- What the request says of a member; an empty address leaves its own.
unfoldable pub set_member : MemberReq → StoreNetworkNode → StoreNetworkNode
set_member req m = record m {
  ip = if req.ip == [] then m.ip else req.ip;
  resource = req.resource;
  enable = req.enable;
}

-- The first member of the name, written through its pointer.
unfoldable pub update_member : MemberReq → List StoreNetworkNode → List StoreNetworkNode
unfolding set_member
update_member req [] = []
update_member req (m ∷ ms) =
    let rest = update_member req ms in
    if m.name == req.name then set_member req m ∷ ms else m ∷ rest

-- A new member at the end.
unfoldable pub join : Host → MemberReq → StoreNetwork → Bytes → M Response
join host req n ip =
    let m = set_member req (record { name = req.name; ip = ip; resource = []; enable = pos 0 }) in
    store_network host (record n { members = n.members ++ m ∷ [] }) (member_ip m.ip)

-- The error texts of allocVirtualIP.
unfoldable pub join_at : Host → MemberReq → StoreNetwork → IpResult → M Response
join_at host req n (allocated ip) = join host req n ip
join_at host req n invalid_gateway =
    reply 200 (
      error_of 4
        (utf8 "invalid gateway " ++ (n.gateway ++ (utf8 ":" ++ host.cidr_error n.gateway))))
join_at host req n only_ipv4 = reply 200 (error_of 4 (utf8 "only ipv4 subnet supported"))
join_at host req n no_free_ip = reply 200 (error_of 4 (utf8 "no free virtual ip in " ++ n.gateway))

-- What follows when the member of the name has been looked up.
unfoldable pub put_member : Host → MemberReq → StoreNetwork → Option StoreNetworkNode → M Response
put_member host req n (some m) =
    store_network host (record n { members = update_member req n.members })
      (member_ip (set_member req m).ip)
put_member host req n none =
    if req.ip == []
    then join_at host req n (alloc_virtual_ip host.parse_cidr n)
    else join host req n req.ip

unfoldable pub add_found : Host → MemberReq → Option StoreNetwork → M Response
add_found host req none = reply 200 (error_of 3 network_not_found)
add_found host req (some n) = put_member host req n (find_first (λ m. m.name == req.name) n.members)

unfoldable pub add_checked : Host → Bytes → Request → MemberReq → M Response
add_checked host user r req =
    if ltb (length req.name) min_node_name_len
    then reply 400 (error_of 2 (utf8 "node name too short"))
    else (do n ← gets (own_network user r); add_found host req n)

unfoldable pub add_network_member : Host → Bytes → Request → M Response
add_network_member host user r = elim (host.web_json.member_req r.body) [
  | none ↦ reply 400 (error_of 1 wrong_request)
  | some req ↦ add_checked host user r req
]

abbrev pub without : Bytes → StoreNetwork → StoreNetwork
without name n = record n { members = keep (λ m. not (m.name == name)) n.members }

-- The members that stay are notified, and then the node that left.
unfoldable pub remove_found : Host → Bytes → Option StoreNetwork → M Response
remove_found host name none = reply 200 (error_of 2 network_not_found)
remove_found host name (some n) = do
  modify (λ w. record w { store = save_network host.disk w.store (without name n) })
  notify_network_members (without name n)
  push_sdwan_refresh name
  reply 200 ok

unfoldable pub del_network_member : Host → Bytes → Request → M Response
del_network_member host user r = elim (host.web_json.member_req r.body) [
  | none ↦ reply 400 (error_of 1 wrong_request)
  | some req ↦ (do n ← gets (own_network user r); remove_found host req.name n)
]
