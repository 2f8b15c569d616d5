-- ===== src/Web/Routes.antt =====
-- web.go: `runWeb`, the handlers under the paths of the interface, with the middleware that runs
-- before them. Which route a path takes is gin's; the page at the root is left out.
use gateway_lite.Web.Sdwan.{
  list_networks, web_save_network, web_delete_network, add_network_member, del_network_member,
}
use gateway_lite.Web.Accounts.{get_profile, update_profile, update_info, web_login, register_user}
use gateway_lite.Web.Devices.{
  list_devices, restart_device, list_apps, edit_app, switch_app, edit_node, get_device_log,
}
use gateway_lite.Gateway.{M}
use gateway_lite.Common.{
  Bytes, none, some, true, false, [], nat_eq, bytes_eq, Bool, Option, if◌then◌else◌,
}
use gateway_lite.Web.{Host, Request, Response, reply, text, authenticate, ctx_user}

-- The routes, in the order of their registration.
pub data Route : Type 0 where
  get_update get_devices get_restart post_login post_register profile_get profile_post : Route
  get_apps post_app post_switchapp post_editnode get_log : Route
  get_networks post_network post_delete post_member post_member_delete : Route

-- The handler of a route that takes a token, under the user that the middleware has set.
unfoldable pub serve_user : Host → Bytes → Request → Route → M Response
serve_user host user r get_devices = list_devices host user
serve_user host user r get_restart = restart_device host r
serve_user host user r profile_get = get_profile user
serve_user host user r profile_post = update_profile host user r
serve_user host user r get_apps = list_apps host r
serve_user host user r post_app = edit_app host r
serve_user host user r post_switchapp = switch_app host r
serve_user host user r post_editnode = edit_node host r
serve_user host user r get_log = get_device_log host r
serve_user host user r get_networks = list_networks host user
serve_user host user r post_network = web_save_network host user r
serve_user host user r post_delete = web_delete_network host user r
serve_user host user r post_member = add_network_member host user r
serve_user host user r post_member_delete = del_network_member host user r
serve_user host user r get_update = update_info
serve_user host user r post_login = web_login host r
serve_user host user r post_register = register_user host r

-- The three routes without AuthMiddleware.
unfoldable pub is_open : Route → Bool
is_open get_update = true
is_open post_login = true
is_open post_register = true
is_open _ = false

-- A request that the middleware lets through.
unfoldable pub admitted : Host → Request → Route → Option Bytes → M Response
admitted host r route none = reply 401 (text [])
admitted host r route (some user) = serve_user host (ctx_user host user) r route

-- OPTIONS ends in CORSMiddleware.
unfoldable pub serve : Host → Bool → Request → Route → M Response
serve host is_options r route =
    if is_options
    then reply 204 (text [])
    else if is_open route
    then serve_user host [] r route
    else admitted host r route (authenticate host r)
