-- ===== src/System/Safety/Tests.antt =====
-- A node logs in and sends a push.
use gateway_lite.Sample.{env, config, login_req, no_sessions, no_sessions-IsSound}
use gateway_lite.System.Safety.{history-dispatch-IsSafe}
use gateway_lite.Protocol.Slice.{Slice}
use gateway_lite.Handlers.Dispatch.{dispatch}
use gateway_lite.Protocol.NodeId.{node_name_to_id}
use gateway_lite.Store.Devices.{upsert_device}
use gateway_lite.Common.Strconv.{parse_uint}
use gateway_lite.Store.Users.{get_user_by_token}
use gateway_lite.Protocol.Constants.{msg_login, msg_push, push_connect_req}
use gateway_lite.Store.Data.{save}
use gateway_lite.Protocol.Header.{encode_push_header, encode_header, new_message}
use gateway_lite.Gateway.Connection.{
  new_session, handle_login, owner_of, open_session, enter, fresh_ref,
}
use gateway_lite.Gateway.{Session, session, write, panicked, wss}
use gateway_lite.System.{Event, logs_in, history, after}
use gateway_lite.Common.{
  refl, none, some, [], nat_eq, bytes_eq, List, utf8, ◌++◌, ◌∷◌, ◌≡◌, arith, lookup, ◌≤◌, length,
  ◌≢◌,
}

abbrev events : List Event
events = logs_in config (λ d. none) (utf8 "now") 0 login_req ∷ []

abbrev logged : Session
logged = record (new_session 0 login_req (utf8 "ann")) {
  write_ch = (encode_header msg_login 0 2 ++ utf8 "{}") ∷ [];
}

entered : lookup 0 (history no_sessions events).sessions ≡ some logged
unfolding history after handle_login session owner_of get_user_by_token parse_uint open_session
    write new_message enter fresh_ref new_session upsert_device save node_name_to_id
entered = refl

abbrev push : Slice
push = record {
  bytes =
      encode_header msg_push push_connect_req 16
      ++ encode_push_header (record { from = logged.node_id; to = 5 });
  spare = [];
}

push_long : 24 ≤ length push.bytes
unfolding encode_header encode_push_header
push_long = omega arith

history-dispatch-IsSafe_example :
    (dispatch env (wss 0) push (history no_sessions events)).1 ≢ panicked
history-dispatch-IsSafe_example =
    history-dispatch-IsSafe env no_sessions events 0 logged push (tt, tt) no_sessions-IsSound
      entered push_long
