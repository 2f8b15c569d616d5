-- ===== src/Handlers/Push/Tests.antt =====
-- The properties of the push handler in a gateway with two sessions.
use gateway_lite.Common.{
  Bytes, [], bytes_eq, false, inr, nat_eq, none, refl, some, true, utf8, ℕ, ◌++◌, ◌+◌, ◌<◌, ◌↔◌,
  ◌∷◌, ◌≡◌,
}
use gateway_lite.Common.Int.{pos}
use gateway_lite.Clock.{Totp, second, minute}
use gateway_lite.Protocol.Slice.{Slice, slice_to, slice_range, slice_from}
use gateway_lite.Protocol.Header.{
  Header, PushHeader, decode_header, decode_push_header, new_message,
}
use gateway_lite.Protocol.Constants.{msg_push}
use gateway_lite.Protocol.Messages.{Json, PushConnectReq}
use gateway_lite.Store.Data.{empty_data}
use gateway_lite.Gateway.{
  World, Session, wss, done, failed, session, read_header, read_push_header, as_wss, write,
  write_buff,
}
use gateway_lite.Handlers.Push.{
  is_support_msg, is_by_pass_msg, deny, connect, check_permission, authorize, forward, push_to,
  route, handle, push_denied,
}
use gateway_lite.Handlers.Push.Delivery.{Delivered, handle-done}
use gateway_lite.Handlers.Push.Permission.{connect_window}
use gateway_lite.Handlers.Push.Refusal.{Contained, handle-failed}

abbrev request : PushConnectReq
request = record { from = utf8 "officenode"; from_token = 78; token = 0 }

-- Every packet is an empty object, and every request the one above.
abbrev json : Json
json = record {
  marshal = λ p. some (utf8 "{}");
  push_connect_req = λ b. some request;
  login_rsp = λ b. none;
  nat_detect_req = λ b. none;
  relay_node_req = λ b. none;
  report_basic = λ b. none;
  report_connect = λ b. none;
  query_peer_info_req = λ b. none;
}

-- No one-time token is right.
abbrev totp : Totp
totp = record { verify = λ token secret now. false; gen = λ secret now. 0 }

abbrev session_of : ℕ → ℕ → Session
session_of id token = record {
  write_ch = [];
  rsp_ch = [];
  closed = false;
  running = true;
  node = utf8 "officenode";
  share_band_width = pos 10;
  user = utf8 "ann";
  token = token;
  node_id = id;
  nat_type = pos 2;
  os = [];
  lan_ip = [];
  has_upnp_or_natpmp = pos 0;
  has_ipv4 = pos 0;
  ipv4 = [];
  ipv6 = [];
  mac = [];
  version = utf8 "3.10.1";
  major_ver = pos 3;
  active_time = 0;
  relay_time = 0;
  fail_nodes = [];
}

-- Node 5 stands at reference 0, node 6 at reference 1.
abbrev world : World
world = record {
  sessions = (0, session_of 5 77) ∷ (1, session_of 6 78) ∷ [];
  all_sessions = (5, 0) ∷ (6, 1) ∷ [];
  push_permission = [];
  store = record { stored = empty_data; file = none };
  connect_result = [];
  online_nodes = [];
  udp_sent = [];
  guard = [];
}

-- The headers of a push from 5 to 6: a connect request, with its body, and a handshake.
abbrev ids : Bytes
ids = 5 ∷ 0 ∷ 0 ∷ 0 ∷ 0 ∷ 0 ∷ 0 ∷ 0 ∷ 6 ∷ 0 ∷ 0 ∷ 0 ∷ 0 ∷ 0 ∷ 0 ∷ 0 ∷ []

abbrev connect_msg : Slice
connect_msg = record { bytes = 18 ∷ 0 ∷ 0 ∷ 0 ∷ 3 ∷ 0 ∷ 1 ∷ 0 ∷ (ids ++ utf8 "{}"); spare = [] }

abbrev handshake_msg : Slice
handshake_msg = record { bytes = 16 ∷ 0 ∷ 0 ∷ 0 ∷ 3 ∷ 0 ∷ 3 ∷ 0 ∷ ids; spare = [] }

abbrev after_connect : World
after_connect = (handle json totp minute (wss 0) connect_msg world).0

connected : handle json totp minute (wss 0) connect_msg world ≡ (after_connect, done tt)
unfolding handle route push_to forward authorize connect write write_buff session as_wss read_header
    read_push_header is_support_msg decode_header decode_push_header new_message slice_to
    slice_range slice_from
connected = refl

handle-done_example : Delivered json totp minute (wss 0) connect_msg world after_connect
handle-done_example = handle-done json totp minute (wss 0) connect_msg world after_connect connected

abbrev after_refusal : World
after_refusal = (handle json totp minute (wss 0) handshake_msg world).0

refused : handle json totp minute (wss 0) handshake_msg world ≡ (after_refusal, failed push_denied)
unfolding handle route push_to forward authorize connect write write_buff session as_wss read_header
    read_push_header is_support_msg decode_header decode_push_header new_message slice_to
    slice_range slice_from is_by_pass_msg check_permission deny
refused = refl

handle-failed_example : Contained 0 world after_refusal
handle-failed_example =
    handle-failed json totp minute 0 handshake_msg world after_refusal push_denied refused

abbrev head : Header
head = record { data_len = 18; main_type = msg_push; sub_type = 1 }

abbrev push : PushHeader
push = record { from = 5; to = 6 }

abbrev granted : World
granted = (connect json totp minute 0 head push (session_of 6 78) connect_msg world).0

connects :
    connect json totp minute 0 head push (session_of 6 78) connect_msg world ≡ (granted, done tt)
unfolding connect slice_from
connects = refl

-- A handshake a second later, from the node that was connected to.
connect_window_example :
    ((check_permission json totp (minute + second) 1 head (record { from = 6; to = 5 }) granted).1
      ≡ done tt)
    ↔ (minute + second < minute + minute)
connect_window_example =
    connect_window json totp minute 0 head push (session_of 6 78) connect_msg world granted
      (minute + second) 1 head (record { from = 6; to = 5 }) connects (inr refl)
