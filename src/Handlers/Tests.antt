-- ===== src/Handlers/Tests.antt =====
-- The properties of the handlers' parts at concrete networks and sessions.
use gateway_lite.Common.{
  Bool, Bytes, List, [], arith, bytes_eq, false, in_order, lookup, nat_eq, none, refl, some, true,
  utf8, ℕ, ◌*◌, ◌+◌, ◌<◌, ◌==◌, ◌↔◌, ◌∷◌, ◌≡◌, ◌⊎◌,
}
use gateway_lite.Common.Int.{pos, int_eq}
use gateway_lite.Clock.{Totp, minute, unix}
use gateway_lite.Store.Data.{Store, StoreNetwork, StoreNetworkNode, empty_data}
use gateway_lite.Protocol.Header.{decode_header, Header, PushHeader, new_message}
use gateway_lite.Protocol.NodeId.{node_name_to_id}
use gateway_lite.Protocol.Messages.{Json, QueryPeerInfoReq}
use gateway_lite.Protocol.Slice.{Slice, slice_to}
use gateway_lite.Handlers.Nat
use gateway_lite.Handlers.Nat.Short.{handle-short}
use gateway_lite.Gateway.{
  World, Session, UdpAddr, udp, done, panicked, session, write, write_buff, read_header,
}
use gateway_lite.Handlers.Push.{check_permission}
use gateway_lite.Handlers.Query.{admit, answer}
use gateway_lite.Handlers.Query.Window.{answer-window}
use gateway_lite.Handlers.Sdwan.{build_sdwan_info}
use gateway_lite.Handlers.Sdwan.Members.{Describes, build_sdwan_info-Describes}
use gateway_lite.Handlers.Relay.{Entry, choose, is_usable}
use gateway_lite.Handlers.Relay.Choice.{Suits, choose_lem}

abbrev member_of : Bytes → ℕ → StoreNetworkNode
member_of name enable = record {
  name = name;
  ip = utf8 "10.2.3.1";
  resource = [];
  enable = pos enable;
}

abbrev network : StoreNetwork
network = record {
  id = 1;
  user = utf8 "ann";
  name = utf8 "home";
  gateway = utf8 "10.2.3.254/24";
  mode = utf8 "fullmesh";
  central_node = [];
  force_relay = pos 0;
  punch_priority = pos 0;
  enable = pos 1;
  tunnel_num = pos 1;
  mtu = pos 1420;
  members = member_of (utf8 "officenode") 1 ∷ member_of (utf8 "labnode01") 0 ∷ [];
}

abbrev with_network : Store
with_network = record { stored = record empty_data { networks = (1, network) ∷ [] }; file = none }

build_sdwan_info-Describes_example :
    Describes with_network
      (utf8 "ann")
      (utf8 "officenode")
      (build_sdwan_info in_order with_network (utf8 "ann") (utf8 "officenode"))
build_sdwan_info-Describes_example =
    build_sdwan_info-Describes in_order with_network (utf8 "ann") (utf8 "officenode")

abbrev session_of : ℕ → Bytes → ℕ → Session
session_of id ip used = record {
  write_ch = [];
  rsp_ch = [];
  closed = false;
  running = true;
  node = utf8 "officenode";
  share_band_width = pos 10;
  user = utf8 "ann";
  token = 77;
  node_id = id;
  nat_type = pos 1;
  os = [];
  lan_ip = [];
  has_upnp_or_natpmp = pos 0;
  has_ipv4 = pos 0;
  ipv4 = ip;
  ipv6 = [];
  mac = [];
  version = utf8 "3.10.1";
  major_ver = pos 3;
  active_time = 0;
  relay_time = used;
  fail_nodes = [];
}

-- The requester, its peer, and two more.
abbrev entries : List Entry
entries =
    (0, session_of 5 (utf8 "1.2.3.4") minute)
    ∷ (1, session_of 6 (utf8 "1.2.3.5") minute)
    ∷ (2, session_of 7 (utf8 "1.2.3.6") (3 * minute))
    ∷ (3, session_of 8 (utf8 "1.2.3.7") (2 * minute))
    ∷ []

abbrev no_loopback : Bytes → Bool
no_loopback ip = false

most_idle :
    choose
      (is_usable no_loopback (session_of 5 (utf8 "1.2.3.4") minute) 6 (utf8 "1.2.3.5"))
      0
      none
      entries
    ≡ some (3, session_of 8 (utf8 "1.2.3.7") (2 * minute))
unfolding choose is_usable
most_idle = refl

choose_lem_example :
    Suits no_loopback
      (session_of 5 (utf8 "1.2.3.4") minute)
      6
      (utf8 "1.2.3.5")
      (session_of 8 (utf8 "1.2.3.7") (2 * minute))
choose_lem_example =
    ((choose_lem no_loopback (session_of 5 (utf8 "1.2.3.4") minute) 6 (utf8 "1.2.3.5") 0 entries).0
      (3, session_of 8 (utf8 "1.2.3.7") (2 * minute)) most_idle).1

abbrev json : Json
json = record {
  marshal = λ p. some (utf8 "{}");
  push_connect_req = λ b. none;
  login_rsp = λ b. none;
  nat_detect_req = λ b. none;
  relay_node_req = λ b. none;
  report_basic = λ b. none;
  report_connect = λ b. none;
  query_peer_info_req = λ b. none;
}

-- The one-time token of a secret is the secret.
abbrev totp : Totp
totp = record { verify = λ token secret now. token == secret; gen = λ secret now. secret }

abbrev world : World
world = record {
  sessions =
      (0, session_of 5 (utf8 "1.2.3.4") minute) ∷ (1, session_of 6 (utf8 "1.2.3.5") minute) ∷ [];
  all_sessions = (5, 0) ∷ (6, 1) ∷ [];
  push_permission = [];
  store = with_network;
  connect_result = [];
  online_nodes = [];
  udp_sent = [];
  guard = [];
}

abbrev head : Header
head = record { data_len = 2; main_type = 7; sub_type = 0 }

abbrev query : QueryPeerInfoReq
query = record { token = 77; peer_node = utf8 "labnode01" }

abbrev after_query : World
after_query = (answer json totp minute 0 head query (some 1) world).0

answers : answer json totp minute 0 head query (some 1) world ≡ (after_query, done tt)
unfolding answer admit session write write_buff new_message node_name_to_id
answers = refl

answer-window_example :
    (sess : Session) × (to_sess : Session) × (lookup 0 world.sessions ≡ some sess)
    × (lookup 1 world.sessions ≡ some to_sess)
    × (totp.verify 77 to_sess.token (unix minute) ≡ true)
    × ((t later_ref : ℕ)
        → (later : Header) → (next : PushHeader)
        → (next.from ≡ sess.node_id) ⊎ (next.from ≡ node_name_to_id (utf8 "labnode01"))
        → ((check_permission json totp t later_ref later next after_query).1 ≡ done tt)
          ↔ (t < minute + minute))
answer-window_example = answer-window json totp minute 0 1 head query world after_query answers

-- Six bytes in a buffer of zeros.
abbrev short_msg : Slice
short_msg = record { bytes = 0 ∷ 0 ∷ 0 ∷ 0 ∷ 2 ∷ 0 ∷ []; spare = 0 ∷ 0 ∷ 0 ∷ 0 ∷ [] }

abbrev nat_head : Header
nat_head = record { data_len = 0; main_type = 2; sub_type = 0 }

abbrev sender : UdpAddr
sender = record { ip = utf8 "1.2.3.4"; port = pos 4321 }

reads : read_header short_msg world ≡ (world, done nat_head)
unfolding read_header decode_header slice_to
reads = refl

handle-short_case : Nat.handle json (udp sender) short_msg world ≡ (world, panicked)
handle-short_case = handle-short json sender short_msg nat_head world (omega arith) reads refl
