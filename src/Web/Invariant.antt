-- ===== src/Web/Invariant.antt =====
-- The requests of Web/Sdwan (webmgmt.go) and the routes of web.go, and the properties of the world that
-- Gateway/Stable describes.
use gateway_lite.Web.Routes.{
  get_update, get_devices, get_restart, post_login, post_register, profile_get, profile_post,
  get_apps, post_app, post_switchapp, post_editnode, get_log, get_networks, post_network,
  post_delete, post_member, post_member_delete,
}
use gateway_lite.Store.VirtualIp.{no_free_ip}
use gateway_lite.Gateway.{◌>>◌}
use gateway_lite.Web.Stable.{
  with_session-Keeps, push_app-Keeps, edit_node-Keeps, get_device_log-Keeps, web_login-Keeps,
  register_user-Keeps,
}
use gateway_lite.Web.Stable.{
  restart_device-Keeps, get_profile-Keeps, update_profile-Keeps, list_apps-Keeps,
  with_session-Keeps,
}
use gateway_lite.Protocol.NodeId.{node_name_to_id}
use gateway_lite.Store.VirtualIp.{IpResult, allocated, alloc_virtual_ip, invalid_gateway, only_ipv4}
use gateway_lite.Store.Networks.{save_network}
use gateway_lite.Common.Strconv.{parse_uint, format_uint}
use gateway_lite.Web.Devices.{find_session, list_devices, edit_app, switch_app}
use gateway_lite.Store.Data.{StoreNetwork, StoreNetworkNode}
use gateway_lite.Web.Sdwan.{
  add_found, add_network_member, del_network_member, join_at, notify_network_members,
  push_sdwan_refresh, refresh_all, remove_found, save_filled, store_network, web_delete_network,
  web_save_network, add_checked, delete_found, join, put_member, save_checked, list_networks,
  refresh_session, fill, own_network, without, target,
}
use gateway_lite.Web.Routes.{
  serve, serve_user, admitted, Route, is_open, get_devices, get_restart, profile_get, profile_post,
  get_apps, post_app, post_switchapp,
}
use gateway_lite.Web.{
  Host, SaveNetworkReq, Body, MemberReq, Request, network_id, ok, authenticate, ctx_user, reply,
}
use gateway_lite.Gateway.{World}
use gateway_lite.Common.{
  none, some, inl, inr, [], nat_eq, bytes_eq, Bytes, List, Bool, Option, Bool-cases, Option-cases,
  ℕ, ◌∷◌, arith, ◌==◌, find_first, lookup,
}
use gateway_lite.Store.Calls.{step, saves, deletes}
use gateway_lite.Gateway.Stable.{IsStable, Keeps, and_then-Keeps, write_buff-Keeps}

module _ (P : World → Type 0) (stable : IsStable P) (host : Host) where
  push_sdwan_refresh-Keeps : (node : Bytes) → Keeps P (push_sdwan_refresh node)
  unfolding push_sdwan_refresh find_session refresh_session
  push_sdwan_refresh-Keeps node w p = refreshed (lookup (node_name_to_id node) w.all_sessions)
    where
      refreshed : (o : Option ℕ) → P (refresh_session (node_name_to_id node) o w).0
      refreshed none = p
      refreshed (some ref) = write_buff-Keeps P stable ref _ w p

  refresh_all-Keeps : (ms : List StoreNetworkNode) → Keeps P (refresh_all ms)
  unfolding refresh_all
  refresh_all-Keeps [] w p = p
  refresh_all-Keeps (m ∷ ms) w p =
      and_then-Keeps P _ (push_sdwan_refresh m.name w).1 _ (push_sdwan_refresh-Keeps m.name w p)
        (λ u. refresh_all-Keeps ms)

  notified-Keeps :
      (n : StoreNetwork) (answer : Body) → Keeps P (do notify_network_members n; reply 200 answer)
  unfolding notify_network_members
  notified-Keeps n answer w p =
      and_then-Keeps P _ (refresh_all n.members w).1 _ (refresh_all-Keeps n.members w p)
        (λ u v q. q)

  store_network-Keeps : (n : StoreNetwork) (answer : Body) → Keeps P (store_network host n answer)
  unfolding store_network step
  store_network-Keeps n answer w p =
      notified-Keeps n answer _ (stable.store host.disk host.stamp (saves n) w p)

  save_filled-Keeps :
      (req : SaveNetworkReq) (o : Option StoreNetwork) → Keeps P (save_filled host req o)
  unfolding save_filled
  save_filled-Keeps req none w p = p
  save_filled-Keeps req (some n) w p =
      store_network-Keeps (fill req n) (network_id (format_uint n.id)) w p

  web_save_network-Keeps : (user : Bytes) (r : Request) → Keeps P (web_save_network host user r)
  unfolding web_save_network save_checked
  web_save_network-Keeps user r w p = elim (Option-cases (host.web_json.save_network_req r.body)) [
    | inl e ↦ rw (e, web_save_network) p
    | inr (req, e) ↦
        rw (e, web_save_network)
          (ground (arith, p, save_filled-Keeps req (target host user req w) w p))
  ]

  web_delete_network-Keeps : (user : Bytes) (r : Request) → Keeps P (web_delete_network host user r)
  unfolding web_delete_network delete_found step
  web_delete_network-Keeps user r w p = deleted (own_network user r w)
    where
      deleted : (o : Option StoreNetwork) → P (delete_found host (parse_uint 64 r.id) o w).0
      deleted none = p
      deleted (some n) =
          notified-Keeps n ok _
            (stable.store host.disk host.stamp (deletes (parse_uint 64 r.id)) w p)

  join_at-Keeps :
      (req : MemberReq) (n : StoreNetwork) (a : IpResult) → Keeps P (join_at host req n a)
  unfolding join_at join
  join_at-Keeps req n (allocated ip) w p = store_network-Keeps _ _ w p
  join_at-Keeps req n invalid_gateway w p = p
  join_at-Keeps req n only_ipv4 w p = p
  join_at-Keeps req n no_free_ip w p = p

  add_found-Keeps : (req : MemberReq) (o : Option StoreNetwork) → Keeps P (add_found host req o)
  unfolding add_found put_member join join_at
  add_found-Keeps req none w p = p
  add_found-Keeps req (some n) w p = put (find_first (λ m. m.name == req.name) n.members)
    where
      put : (o : Option StoreNetworkNode) → P (put_member host req n o w).0
      put (some m) = store_network-Keeps _ _ w p
      put none = elim (Bool-cases (req.ip == [])) [
        | inl y ↦ rw (y, put_member) (join_at-Keeps req n (alloc_virtual_ip host.parse_cidr n) w p)
        | inr x ↦ rw (x, put_member) (join_at-Keeps req n (allocated req.ip) w p)
      ]

  add_network_member-Keeps : (user : Bytes) (r : Request) → Keeps P (add_network_member host user r)
  unfolding add_network_member add_checked
  add_network_member-Keeps user r w p = elim (Option-cases (host.web_json.member_req r.body)) [
    | inl e ↦ rw (e, add_network_member) p
    | inr (req, e) ↦
        rw (e, add_network_member)
          (ground (arith, p, add_found-Keeps req (own_network user r w) w p))
  ]

  remove_found-Keeps : (name : Bytes) (o : Option StoreNetwork) → Keeps P (remove_found host name o)
  unfolding remove_found notify_network_members step
  remove_found-Keeps name none w p = p
  remove_found-Keeps name (some n) w p =
      let v = record w { store = save_network host.disk w.store (without name n) } in
      and_then-Keeps P _ (refresh_all (without name n).members v).1 _
        (refresh_all-Keeps (without name n).members v
          (stable.store host.disk host.stamp (saves (without name n)) w p))
        (λ u x q.
          and_then-Keeps P _ (push_sdwan_refresh name x).1 _ (push_sdwan_refresh-Keeps name x q)
            (λ a y b. b))

  del_network_member-Keeps : (user : Bytes) (r : Request) → Keeps P (del_network_member host user r)
  unfolding del_network_member
  del_network_member-Keeps user r w p = elim (Option-cases (host.web_json.member_req r.body)) [
    | inl e ↦ rw (e, del_network_member) p
    | inr (req, e) ↦
        rw (e, del_network_member) (remove_found-Keeps req.name (own_network user r w) w p)
  ]

  module _ (quiet : (w : World) → P w → P (host.meanwhile w)) where
    serve_user-Keeps :
        (user : Bytes) (r : Request) (route : Route) → Keeps P (serve_user host user r route)
    unfolding serve_user list_devices list_networks edit_app switch_app
    serve_user-Keeps user r get_devices w p = p
    serve_user-Keeps user r get_restart w p = restart_device-Keeps P stable host r w p
    serve_user-Keeps user r profile_get w p = get_profile-Keeps P stable host user w p
    serve_user-Keeps user r profile_post w p = update_profile-Keeps P stable host user r w p
    serve_user-Keeps user r get_apps w p = list_apps-Keeps P stable host quiet r w p
    serve_user-Keeps user r post_app w p =
        with_session-Keeps P stable host r.name _ (push_app-Keeps P stable host _ r) w p
    serve_user-Keeps user r post_switchapp w p =
        with_session-Keeps P stable host r.name _ (push_app-Keeps P stable host _ r) w p
    serve_user-Keeps user r post_editnode w p = edit_node-Keeps P stable host r w p
    serve_user-Keeps user r get_log w p = get_device_log-Keeps P stable host quiet r w p
    serve_user-Keeps user r get_networks w p = p
    serve_user-Keeps user r post_network w p = web_save_network-Keeps user r w p
    serve_user-Keeps user r post_delete w p = web_delete_network-Keeps user r w p
    serve_user-Keeps user r post_member w p = add_network_member-Keeps user r w p
    serve_user-Keeps user r post_member_delete w p = del_network_member-Keeps user r w p
    serve_user-Keeps user r get_update w p = p
    serve_user-Keeps user r post_login w p = web_login-Keeps P stable host r w p
    serve_user-Keeps user r post_register w p = register_user-Keeps P stable host r w p

    pub serve-Keeps :
        (is_options : Bool) (r : Request) (route : Route) → Keeps P (serve host is_options r route)
    unfolding serve admitted
    serve-Keeps is_options r route w p = elim (Bool-cases is_options) [
      | inl y ↦ rw (y, serve) p
      | inr n ↦ elim (Bool-cases (is_open route)) [
        | inl y ↦ rw (n, y, serve) (serve_user-Keeps [] r route w p)
        | inr x ↦ elim (Option-cases (authenticate host r)) [
          | inl e ↦ rw (n, x, e, serve, admitted) p
          | inr (user, e) ↦
              rw (n, x, e, serve, admitted) (serve_user-Keeps (ctx_user host user) r route w p)
        ]
      ]
    ]
