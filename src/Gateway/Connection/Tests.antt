-- ===== src/Gateway/Connection/Tests.antt =====
-- A gateway where a node logs in, logs in again, and its first connection ends.
use gateway_lite.Protocol.Constants.{msg_login}
use gateway_lite.Common.Int.{pos}
use gateway_lite.Common.{
  List, [], arith, bytes_eq, in_order, lookup, nat_eq, none, refl, some, utf8, ◌∷◌, ◌≡◌, true, ◌++◌,
}
use gateway_lite.Common.Strconv.{parse_uint}
use gateway_lite.Protocol.Header.{new_message, encode_header}
use gateway_lite.Protocol.NodeId.{node_name_to_id}
use gateway_lite.Protocol.Messages.{Json}
use gateway_lite.Store.Data.{empty_data, save, new_store}
use gateway_lite.Store.Devices.{upsert_device}
use gateway_lite.Store.Users.{get_user_by_token}
use gateway_lite.Gateway.{World, done, session, write, write_buff}
use gateway_lite.Gateway.Queues.{Queued}
use gateway_lite.Gateway.Connection.{
  LoginReq, Config, new_session, owner_of, enter, open_session, handle_login, read_error, fresh_ref,
  refused_frames,
}
use gateway_lite.Gateway.Connection.Life.{IsLive}
use gateway_lite.Gateway.Connection.History.{
  Event, logs_in, ends, after, history, history-IsLive, write_buff-Queued_live,
}

abbrev json : Json
json = record {
  marshal = λ p. some (utf8 "{}");
  push_connect_req = λ b. none;
  login_rsp = λ b. none;
  nat_detect_req = λ b. none;
  relay_node_req = λ b. none;
  report_basic = λ b. none;
  report_connect = λ b. none;
  query_peer_info_req = λ b. none;
}

abbrev config : Config
config = record { json = json; order = in_order; g_user = utf8 "ann"; g_token = 77 }

abbrev start : World
start = record {
  sessions = [];
  all_sessions = [];
  push_permission = [];
  store = record { stored = empty_data; file = none };
  connect_result = [];
  online_nodes = [];
  udp_sent = [];
  guard = [];
}

start-IsLive : IsLive start
start-IsLive = record {
  entries = λ id ref h. absurd (grind arith);
  channels = λ ref s h. absurd (grind arith);
}

abbrev request : LoginReq
request = record {
  node = utf8 "officenode";
  token = utf8 "77";
  version = utf8 "3.10.1";
  nat_type = utf8 "2";
  share_band_width = utf8 "10";
  remote_addr = utf8 "1.2.3.4:5678";
}

abbrev events : List Event
events =
    logs_in (λ d. none) (utf8 "now") 0 request
    ∷ logs_in (λ d. none) (utf8 "now") 0 request
    ∷ ends 0
    ∷ []

history-events-IsLive : IsLive (history config start events)
history-events-IsLive = history-IsLive config start events start-IsLive

-- The second session keeps its place.
kept :
    lookup (node_name_to_id (utf8 "officenode")) (history config start events).all_sessions ≡ some 1
unfolding history after handle_login read_error session owner_of get_user_by_token new_store
    parse_uint open_session write new_message enter fresh_ref new_session upsert_device save
    node_name_to_id
kept = refl

write_buff-Queued_live_case :
    ((write_buff 1 (utf8 "hello") (history config start events)).1 ≡ done tt)
    × Queued (utf8 "hello") 1 (write_buff 1 (utf8 "hello") (history config start events)).0
write_buff-Queued_live_case =
    write_buff-Queued_live (history config start events) (node_name_to_id (utf8 "officenode")) 1
      (utf8 "hello") (history-IsLive config start events start-IsLive) kept

-- The frame of a refused login, on a connection that takes it.
refused_once :
    refused_frames config
      (λ m. true)
      0
      request
      (record {
        error = pos 600;
        detail = utf8 "Invalid token";
        user = [];
        node = [];
        token = 0;
        ts = pos 0;
      })
    ≡ (encode_header msg_login 0 2 ++ utf8 "{}") ∷ []
unfolding refused_frames new_session new_message
refused_once = refl
