-- ===== src/Web/Sample.antt =====
-- Values for the tests: a gateway with one user, one network of another user and one device.
use gateway_lite.Store.VirtualIp.{Cidr}
use gateway_lite.Protocol.NodeId.{node_name_to_id}
use gateway_lite.Common.Int.{pos, int_eq}
use gateway_lite.Clock.{unix_epoch, second}
use gateway_lite.Web.{Claim, Host, Jwt, MemberReq, Request, SaveNetworkReq, WebJson}
use gateway_lite.Store.Data.{StoreDevice, StoreNetwork, StoreUser, empty_data}
use gateway_lite.Protocol.Messages.{Json, ProfileInfo}
use gateway_lite.Common.{
  none, some, true, false, [], nat_eq, bytes_eq, lookup, utf8, ℕ, ◌∷◌, Bool, if◌then◌else◌,
  in_order, ◌+◌, ◌*◌, ◌==◌, ◌&&◌,
}
use gateway_lite.Gateway.{World, Session, put_session}

abbrev pub json : Json
json = record {
  marshal = λ p. some (utf8 "{}");
  push_connect_req = λ b. none;
  login_rsp = λ b. none;
  nat_detect_req = λ b. none;
  relay_node_req = λ b. none;
  report_basic = λ b. none;
  report_connect = λ b. none;
  query_peer_info_req = λ b. none;
}

abbrev pub profile : ProfileInfo
profile = record {
  user = utf8 "annabella";
  password = utf8 "Secret#12";
  email = [];
  phone = [];
  token = [];
  addtime = [];
}

abbrev pub web_json : WebJson
web_json = record {
  profile_info = λ b. some profile;
  edit_node = λ b. none;
  app_info = λ b. none;
  save_network_req = λ b. none;
  member_req = λ b. none;
}

abbrev pub time : ℕ
time = unix_epoch * second + 1000 * second

-- The one claim that this key signs.
abbrev pub the_claim : Claim
the_claim = record {
  user = utf8 "annabella";
  install_token = utf8 "77";
  expires_at = pos 87400;
  issued_at = pos 1000;
}

abbrev pub same_claim : Claim → Bool
same_claim c =
    c.user == the_claim.user
    && (c.install_token == the_claim.install_token
        && (c.expires_at == the_claim.expires_at && c.issued_at == the_claim.issued_at))

abbrev pub jwt : Jwt
jwt = record {
  sign = λ secret c. if same_claim c then some (utf8 "token") else none;
  is_hmac = λ token. true;
  verify = λ secret now token. some (the_claim, true);
}

abbrev pub host : Host
host = record {
  json = json;
  web_json = web_json;
  jwt = jwt;
  secret = utf8 "secret@openp2p.cn";
  g_user = utf8 "annabella";
  order = in_order;
  parse_cidr = λ t. none;
  cidr_error = λ t. [];
  add_day = λ t. t + 86400 * second;
  local_time = λ t. [];
  disk = λ d. none;
  stamp = utf8 "2024-01-01 00:00:00";
  now = time;
  later = time;
  meanwhile = λ w. w;
}

abbrev pub request : Request
request = record {
  authorization = none;
  body = utf8 "{}";
  name = utf8 "officenode";
  id = utf8 "5";
  offset = [];
  len = [];
  client_ip = utf8 "10.0.0.1";
}

abbrev pub ann : StoreUser
ann = record {
  user = utf8 "annabella";
  password = utf8 "Secret#12";
  token = 77;
  email = [];
  phone = [];
  addtime = [];
}

abbrev pub network : StoreNetwork
network = record {
  id = 5;
  user = utf8 "somebody";
  name = utf8 "home";
  gateway = utf8 "10.2.3.254/24";
  mode = utf8 "fullmesh";
  central_node = [];
  force_relay = pos 0;
  punch_priority = pos 0;
  enable = pos 1;
  tunnel_num = pos 1;
  mtu = pos 1420;
  members = [];
}

abbrev pub device : StoreDevice
device = record {
  name = utf8 "officenode";
  user = utf8 "annabella";
  os = [];
  mac = [];
  lan_ip = [];
  ipv4 = [];
  ipv6 = [];
  nat_type = pos 0;
  bandwidth = pos 10;
  version = [];
  remark = [];
  addtime = [];
  activetime = [];
}

abbrev pub office : Session
office = record {
  write_ch = [];
  rsp_ch = utf8 "old" ∷ [];
  closed = false;
  running = true;
  node = utf8 "officenode";
  share_band_width = pos 10;
  user = utf8 "annabella";
  token = 77;
  node_id = node_name_to_id (utf8 "officenode");
  nat_type = pos 0;
  os = [];
  lan_ip = [];
  has_upnp_or_natpmp = pos 0;
  has_ipv4 = pos 0;
  ipv4 = [];
  ipv6 = [];
  mac = [];
  version = [];
  major_ver = pos 0;
  active_time = 0;
  relay_time = 0;
  fail_nodes = [];
}

abbrev pub world : World
world = record {
  sessions = (3, office) ∷ [];
  all_sessions = (node_name_to_id (utf8 "officenode"), 3) ∷ [];
  push_permission = [];
  store = record {
    stored = record {
      users = (utf8 "annabella", ann) ∷ [];
      devices = (utf8 "officenode", device) ∷ [];
      networks = (5, network) ∷ [];
    };
    file = none;
  };
  connect_result = [];
  online_nodes = [];
  udp_sent = [];
  guard = [];
}

abbrev pub without_users : World
without_users = record world { store = record { stored = empty_data; file = none } }

-- The device answers at once.
abbrev pub answers : World → World
answers w = elim (lookup 3 w.sessions) [
  | none ↦ w
  | some s ↦ put_session 3 (record s { rsp_ch = utf8 "new" ∷ [] }) w
]

abbrev pub save_req : SaveNetworkReq
save_req = record {
  id = 0;
  name = utf8 "office";
  gateway = utf8 "10.2.4.254/24";
  mode = [];
  central_node = [];
  force_relay = pos 0;
  punch_priority = pos 0;
  enable = pos 1;
  tunnel_num = pos 1;
  mtu = pos 1420;
}

abbrev pub member_req : MemberReq
member_req = record {
  name = utf8 "officenode";
  ip = utf8 "10.2.3.1";
  resource = [];
  enable = pos 1;
}

abbrev pub sdwan_host : Host
sdwan_host = record host {
  web_json = record web_json {
    save_network_req = λ b. some save_req;
    member_req = λ b. some member_req;
  };
}

abbrev pub changed_ann : StoreUser
changed_ann = record ann { password = utf8 "Other#123" }

abbrev pub changed_world : World
changed_world = record world {
  store = record {
    stored = record {
      users = (utf8 "annabella", changed_ann) ∷ [];
      devices = (utf8 "officenode", device) ∷ [];
      networks = (5, network) ∷ [];
    };
    file = none;
  };
}

-- The host so many seconds later.
abbrev pub at : ℕ → Host
at n = record host { now = time + n * second; later = time + n * second }

abbrev pub token_request : Request
token_request = record request { authorization = some (utf8 "token") }

abbrev pub own : StoreNetwork
own = record network { user = utf8 "annabella" }

abbrev pub own_world : World
own_world = record world {
  store = record {
    stored = record {
      users = (utf8 "annabella", ann) ∷ [];
      devices = (utf8 "officenode", device) ∷ [];
      networks = (5, own) ∷ [];
    };
    file = none;
  };
}

abbrev pub cidr : Cidr
cidr = record {
  address = utf8 "10.2.3.254";
  network = some (10 ∷ 2 ∷ 3 ∷ 0 ∷ []);
  mask = 255 ∷ 255 ∷ 255 ∷ 0 ∷ [];
}

abbrev pub joining : MemberReq
joining = record member_req { ip = [] }

abbrev pub member_host : Host
member_host = record host {
  web_json = record web_json { member_req = λ b. some joining };
  parse_cidr = λ t. some cidr;
}
