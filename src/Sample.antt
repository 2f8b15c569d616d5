-- ===== src/Sample.antt =====
-- A gateway without sessions, and a login to it, for the tests: every packet is an empty object, and no
-- request and no one-time token is right.
use gateway_lite.Store.Data.{empty_data}
use gateway_lite.Protocol.Messages.{Json}
use gateway_lite.Handlers.Dispatch.{Env}
use gateway_lite.Gateway.Sound.{IsSound}
use gateway_lite.Gateway.Connection.{Config, LoginReq}
use gateway_lite.Gateway.{World}
use gateway_lite.Common.{none, some, false, [], nat_eq, bytes_eq, arith, in_order, utf8}

abbrev pub json : Json
json = record {
  marshal = λ p. some (utf8 "{}");
  push_connect_req = λ b. none;
  login_rsp = λ b. none;
  nat_detect_req = λ b. none;
  relay_node_req = λ b. none;
  report_basic = λ b. none;
  report_connect = λ b. none;
  query_peer_info_req = λ b. none;
}

abbrev pub env : Env
env = record {
  json = json;
  totp = record { gen = λ id ts. 0; verify = λ code id ts. false };
  is_loopback = λ b. false;
  order = in_order;
  disk = λ d. none;
  stamp = [];
  now = 0;
}

abbrev pub config : Config
config = record { json = json; order = in_order; g_user = utf8 "ann"; g_token = 77 }

abbrev pub login_req : LoginReq
login_req = record {
  node = utf8 "officenode";
  token = utf8 "77";
  version = utf8 "3.10.1";
  nat_type = utf8 "2";
  share_band_width = utf8 "10";
  remote_addr = utf8 "1.2.3.4:5678";
}

abbrev pub no_sessions : World
no_sessions = record {
  sessions = [];
  all_sessions = [];
  push_permission = [];
  store = record { stored = empty_data; file = none };
  connect_result = [];
  online_nodes = [];
  udp_sent = [];
  guard = [];
}

pub no_sessions-IsSound : IsSound no_sessions
no_sessions-IsSound = record {
  live = record {
    entries = λ id ref h. absurd (grind arith);
    channels = λ ref s h. absurd (grind arith);
  };
  consistent = record {
    users = tt;
    devices = tt;
    networks = tt;
    user_keys = λ k v h. absurd (grind arith);
    device_keys = λ k v h. absurd (grind arith);
    network_keys = λ k v h. absurd (grind arith);
  };
}
