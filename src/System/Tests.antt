-- ===== src/System/Tests.antt =====
-- A gateway where a node logs in, a request of the web interface comes, and a notice goes out.
use gateway_lite.Gateway.Connection.Life.{lookup-insert_cases}
use gateway_lite.Sample.{json, config, login_req}
use gateway_lite.System.Start.{start-IsSound}
use gateway_lite.Store.Calls.Consistent.{empty-IsConsistent}
use gateway_lite.System.Start.{empty_world}
use gateway_lite.Environment.{Params, parse_params}
use gateway_lite.System.Start
use gateway_lite.Store.Devices.{upsert_device}
use gateway_lite.Common.Strconv.{parse_uint}
use gateway_lite.Store.Users.{get_user_by_token, ensure_user}
use gateway_lite.Gateway.Reach.{write_buff-sent}
use gateway_lite.Gateway.Deal.{Deals, deal_one-adds}
use gateway_lite.Protocol.Constants.{msg_login}
use gateway_lite.Goroutines.{write_ch_size}
use gateway_lite.Web.Routes.{get_apps}
use gateway_lite.Store.Data.{empty_data, save, StoreJson, StoreUser, new_store}
use gateway_lite.Protocol.NodeId.{node_name_to_id}
use gateway_lite.Protocol.Constants.{msg_push, push_dst_node_online}
use gateway_lite.Web.{Host, Request}
use gateway_lite.System.{history, Event, after, history-IsSound, logs_in, requests, notifies}
use gateway_lite.Protocol.Messages.{dst_node_online_of}
use gateway_lite.Protocol.Header.{new_message, encode_header}
use gateway_lite.Gateway.Sound.{IsSound}
use gateway_lite.Gateway.Loops.{deal_one, write_loop}
use gateway_lite.Gateway.Connection.{
  handle_login, owner_of, open_session, enter, fresh_ref, new_session,
}
use gateway_lite.Gateway.{Session, World, write_buff, session, write}
use gateway_lite.Common.{
  refl, none, some, true, false, [], nat_eq, bytes_eq, List, lookup, ℕ, arith, in_order, utf8, ◌≡◌,
  Member, lookup-insert_self, ◌∷◌, length, ◌++◌, ◌<◌, inl, inr,
}

abbrev host : Host
host = record {
  json = json;
  web_json = record {
    profile_info = λ b. none;
    edit_node = λ b. none;
    app_info = λ b. none;
    save_network_req = λ b. none;
    member_req = λ b. none;
  };
  jwt = record {
    sign = λ secret c. none;
    is_hmac = λ token. false;
    verify = λ secret now token. none;
  };
  secret = utf8 "secret@openp2p.cn";
  g_user = utf8 "ann";
  order = in_order;
  parse_cidr = λ t. none;
  cidr_error = λ t. [];
  add_day = λ t. t;
  local_time = λ t. [];
  disk = λ d. none;
  stamp = utf8 "now";
  now = 0;
  later = 0;
  meanwhile = λ w. w;
}

abbrev web_request : Request
web_request = record {
  authorization = none;
  body = [];
  name = utf8 "officenode";
  id = [];
  offset = [];
  len = [];
  client_ip = utf8 "10.0.0.1";
}

abbrev no_sessions : World
no_sessions = record {
  sessions = [];
  all_sessions = [];
  push_permission = [];
  store = record { stored = empty_data; file = none };
  connect_result = [];
  online_nodes = utf8 "labnode01" ∷ [];
  udp_sent = [];
  guard = [];
}

no_sessions-IsSound : IsSound no_sessions
no_sessions-IsSound = record {
  live = record {
    entries = λ id ref h. absurd (grind arith);
    channels = λ ref s h. absurd (grind arith);
  };
  consistent = record {
    users = tt;
    devices = tt;
    networks = tt;
    user_keys = λ k v h. absurd (grind arith);
    device_keys = λ k v h. absurd (grind arith);
    network_keys = λ k v h. absurd (grind arith);
  };
}

abbrev events : List Event
events =
    logs_in config (λ d. none) (utf8 "now") 0 login_req
    ∷ requests host false web_request get_apps
    ∷ notifies json in_order
    ∷ []

history-IsSound_case : IsSound (history no_sessions events)
history-IsSound_case =
    history-IsSound no_sessions events (tt, ((λ w p. p), (tt, tt))) no_sessions-IsSound

-- After the login the node is in the map.
abbrev logged_in : World
logged_in = history no_sessions (logs_in config (λ d. none) (utf8 "now") 0 login_req ∷ [])

logged_in-IsSound : IsSound logged_in
logged_in-IsSound = history-IsSound no_sessions _ (tt, tt) no_sessions-IsSound

abbrev node_id : ℕ
node_id = node_name_to_id (utf8 "officenode")

entered : logged_in.all_sessions ≡ (node_id, 0) ∷ []
unfolding history after handle_login session owner_of get_user_by_token parse_uint open_session
    write new_message enter fresh_ref new_session upsert_device save node_name_to_id
entered = refl

known : lookup node_id logged_in.all_sessions ≡ some 0
known = rw entered (lookup-insert_self node_id 0 [])

write_buff-sent_example :
    (s : Session) × (lookup 0 (write_buff 0 (utf8 "hello") logged_in).0.sessions ≡ some s)
    × Member (utf8 "hello") (write_loop (length s.write_ch) (λ m. true) s).0
write_buff-sent_example =
    write_buff-sent logged_in node_id 0 (utf8 "hello") (λ m. true) logged_in-IsSound.live known
      (λ m. refl)

framed :
    new_message msg_push push_dst_node_online (json.marshal (dst_node_online_of (utf8 "labnode01")))
    ≡ some (encode_header msg_push push_dst_node_online 2 ++ utf8 "{}")
unfolding new_message
framed = refl

abbrev logged : Session
logged = record (new_session 0 login_req (utf8 "ann")) {
  write_ch = (encode_header msg_login 0 2 ++ utf8 "{}") ∷ [];
}

stored : logged_in.sessions ≡ (0, logged) ∷ []
unfolding history after handle_login session owner_of get_user_by_token parse_uint open_session
    write new_message enter fresh_ref new_session upsert_device save node_name_to_id
stored = refl

-- Every channel has one message.
room :
    (ref : ℕ) (s : Session)
    → lookup ref logged_in.sessions ≡ some s
    → length s.write_ch < write_ch_size
room ref s e =
    let f : lookup ref ((0, logged) ∷ []) ≡ some s = rw stored at e in
    elim (lookup-insert_cases 0 ref logged s [] f) [
      | inl (p, q) ↦ rw (← q) (omega arith)
      | inr (d, old) ↦ cc old
    ]

deal_one-adds_example :
    Deals
      (encode_header msg_push push_dst_node_online 2 ++ utf8 "{}")
      logged_in
      (deal_one json in_order (utf8 "labnode01") logged_in)
deal_one-adds_example =
    deal_one-adds json in_order (utf8 "labnode01")
      (encode_header msg_push push_dst_node_online 2 ++ utf8 "{}") logged_in framed
      logged_in-IsSound.live (rw entered (refl, tt)) (λ id ref s h e. room ref s e)

abbrev store_json : StoreJson
store_json = record { marshal = λ d. []; unmarshal = λ b. none }

abbrev params : Params
params = record {
  g_user = utf8 "annabella";
  g_password = utf8 "Secret#12";
  g_token = node_name_to_id (utf8 "annabella" ++ utf8 "Secret#12");
  jwt_secret = utf8 "annabellaSecret#12@openp2p.cn";
}

abbrev started : World
started = empty_world (
    ensure_user (λ d. none) (utf8 "now") (new_store store_json none) (utf8 "annabella")
      (utf8 "Secret#12") (node_name_to_id (utf8 "annabella" ++ utf8 "Secret#12")))

starts :
    Start.start store_json none (λ d. none) (utf8 "now") (utf8 "annabella") (utf8 "Secret#12")
    ≡ some (params, started)
unfolding Start.start parse_params
starts = refl

start-IsSound_example :
    ((u : StoreUser) × (lookup (utf8 "annabella") started.store.stored.users ≡ some u)
      × (u.password ≡ utf8 "Secret#12")
      × (u.token ≡ node_name_to_id (utf8 "annabella" ++ utf8 "Secret#12")))
    × IsSound (history started events)
start-IsSound_example =
    start-IsSound store_json none (λ d. none) (utf8 "now") (utf8 "annabella") (utf8 "Secret#12")
      params started events starts (empty-IsConsistent store_json) (tt, ((λ w p. p), (tt, tt)))
