-- ===== src/Handlers/Push.antt =====
-- pushhandler.go: a message from one node to another, if the sender may push.
pub mod Delivery
pub mod Permission
pub mod Refusal
mod Tests
use gateway_lite.Common.{
  Bool, Bytes, Option, bytes_eq, delete, if◌then◌else◌, insert, lookup, ltb, nat_eq, none, some,
  utf8, ℕ, ◌++◌, ◌+◌, ◌==◌, ◌||◌,
}
use gateway_lite.Common.Int.{ℤ, pos}
use gateway_lite.Common.Strconv.{format_uint}
use gateway_lite.Clock.{Totp, minute, unix}
use gateway_lite.Protocol.Slice.{Slice, slice_from}
use gateway_lite.Protocol.Header.{Header, PushHeader, header_size, push_header_size}
use gateway_lite.Protocol.Constants.{
  push_rsp, push_connect_req, push_connect_rsp, push_handshake_start, push_add_relay_tunnel_req,
  push_add_relay_tunnel_rsp, push_underlay_connect, push_server_side_save_mem_app, push_update,
  push_edit_node, push_report_log, push_dst_node_online, push_sd_wan_refresh, push_app_key,
}
use gateway_lite.Protocol.Messages.{Json, PushConnectReq, PushRsp, Packet, push_rsp_of}
use gateway_lite.Gateway.{
  World, Session, PushNodeInfo, Sender, M, ◌>>=◌, ◌>>◌, pure, fail, or_fail, or_panic, gets, modify,
  read_header, read_push_header, as_wss, session, write, write_buff,
}

unfoldable pub is_support_msg : ℕ → Bool
is_support_msg t =
    t == push_rsp
    || t == push_connect_req
    || t == push_connect_rsp
    || t == push_handshake_start
    || t == push_add_relay_tunnel_req
    || t == push_add_relay_tunnel_rsp
    || t == push_underlay_connect
    || t == push_server_side_save_mem_app
    || t == push_update
    || t == push_edit_node
    || t == push_report_log
    || t == push_dst_node_online
    || t == push_sd_wan_refresh
    || t == push_app_key

unfoldable pub is_by_pass_msg : ℕ → Bool
is_by_pass_msg t = t == push_app_key || t == push_server_side_save_mem_app

abbrev pub push_denied : Bytes
push_denied = utf8 "push denied"

abbrev pub peer_offline : Bytes
peer_offline = utf8 "peer offline"

abbrev pub wrong_request : Bytes
wrong_request = utf8 "wrong request"

-- pushPermission.Store
abbrev pub permit : ℕ → PushNodeInfo → World → World
permit key info w = record w { push_permission = insert key info w.push_permission }

-- "push msgType %d,%d to %d ok", which prints the sender's number
abbrev pub delivered : Header → PushHeader → Bytes
delivered head push =
    utf8 "push msgType "
    ++ (format_uint head.main_type
        ++ (utf8 ","
            ++ (format_uint head.sub_type
                ++ (utf8 " to " ++ (format_uint push.from ++ utf8 " ok")))))

module _ (json : Json) (totp : Totp) where
  -- An answer with error 1, and the handler's error.
  unfoldable pub deny : ℕ → Header → Bytes → Bytes → M (Unit {0})
  deny from_ref head detail error = do
    write json from_ref head.main_type push_rsp
        (push_rsp_of (record { error = pos 1; detail = detail }))
    fail error

  -- A request with the peer's token, or with the one-time token made of it, lets the two nodes push
  -- to each other for a minute.
  grant : ℕ → ℕ → Header → PushHeader → Session → PushConnectReq → M (Unit {0})
  grant now from_ref head push to_sess req =
      if totp.verify req.token to_sess.token (unix now) || to_sess.token == req.from_token
      then (do
        modify (permit push.from (record { to = push.to; expired_at = now + minute }))
        modify (permit push.to (record { to = push.from; expired_at = now + minute })))
      else deny from_ref head (utf8 "MsgPushConnectReq push denied") push_denied

  unfoldable pub connect : ℕ → ℕ → Header → PushHeader → Session → Slice → M (Unit {0})
  unfolding grant
  connect now from_ref head push to_sess msg = do
    body ← or_panic (slice_from (header_size + push_header_size) msg)
    req ← or_fail (json.push_connect_req body) wrong_request
    grant now from_ref head push to_sess req

  -- Any other message: a permission under the sender's number that has not run out. One that has
  -- is removed.
  unfoldable pub check_permission : ℕ → ℕ → Header → PushHeader → M (Unit {0})
  check_permission now from_ref head push w = elim (lookup push.from w.push_permission) [
    | none ↦ deny from_ref head push_denied push_denied w
    | some info ↦
        if ltb now info.expired_at
        then pure tt w
        else deny from_ref head push_denied push_denied
            (record w { push_permission = delete push.from w.push_permission })
  ]

  unfoldable pub authorize : ℕ → ℕ → Header → PushHeader → Session → Slice → M (Unit {0})
  authorize now from_ref head push to_sess msg =
      if head.sub_type == push_connect_req
      then connect now from_ref head push to_sess msg
      else if is_by_pass_msg head.sub_type
      then pure tt
      else check_permission now from_ref head push

  -- The message goes out as it came, and the sender is told so.
  unfoldable pub forward : ℕ → ℕ → Header → PushHeader → Slice → M (Unit {0})
  forward from_ref to_ref head push msg = do
    write_buff to_ref msg.bytes
    write json from_ref head.main_type push_rsp
        (push_rsp_of (record { error = pos 0; detail = delivered head push }))

  -- What follows when the peer has been looked up.
  unfoldable pub push_to : ℕ → ℕ → Header → PushHeader → Slice → Option ℕ → M (Unit {0})
  push_to now from_ref head push msg none = deny from_ref head peer_offline peer_offline
  push_to now from_ref head push msg (some to_ref) = do
    to_sess ← session to_ref
    authorize now from_ref head push to_sess msg
    forward from_ref to_ref head push msg

  -- What follows when the headers and the session have been read.
  unfoldable pub route : ℕ → ℕ → Header → PushHeader → Slice → M (Unit {0})
  route now from_ref head push msg =
      if is_support_msg head.sub_type
      then (do
        to_ref ← gets (λ w. lookup push.to w.all_sessions)
        push_to now from_ref head push msg to_ref)
      else deny from_ref head (utf8 "push denied: unSupported msg ") push_denied

  unfoldable pub handle : ℕ → Sender → Slice → M (Unit {0})
  handle now sender msg = do
    head ← read_header msg
    push ← read_push_header msg
    from_ref ← as_wss sender
    route now from_ref head push msg
