-- ===== src/Handlers/Login.antt =====
-- loginhandler.go: the answer to a login, and the heartbeat.
use gateway_lite.Common.{
  Bytes, bytes_eq, if◌then◌else◌, nat_eq, utf8, ℕ, ◌%◌, ◌*◌, ◌++◌, ◌-◌, ◌==◌, ◌^◌,
}
use gateway_lite.Clock.{second, unix_epoch}
use gateway_lite.Protocol.Slice.{Slice, slice_from}
use gateway_lite.Protocol.Header.{header_size, encode_header, le_bytes}
use gateway_lite.Protocol.Constants.{msg_login, msg_heartbeat}
use gateway_lite.Protocol.Messages.{Json}
use gateway_lite.Gateway.{
  Sender, M, ◌>>=◌, ◌>>◌, pure, or_fail, or_panic, modify, read_header, as_wss, session,
  put_session, write_buff,
}

-- time.Now().UnixNano() as 8 bytes, for a time after 1970.
abbrev pub clock_body : ℕ → Bytes
clock_body now = le_bytes 8 ((now - unix_epoch * second) % 2 ^ 64)

unfoldable pub heartbeat : ℕ → ℕ → M (Unit {0})
heartbeat now ref = do
  sess ← session ref
  modify (put_session ref (record sess { active_time = now }))
  write_buff ref (encode_header msg_heartbeat 0 8 ++ clock_body now)

module _ (json : Json) where
  -- A login's answer that reports an error is logged; `close` does nothing.
  unfoldable pub handle : ℕ → Sender → Slice → M (Unit {0})
  handle now sender msg = do
    head ← read_header msg
    ref ← as_wss sender
    if head.main_type == msg_login
        then (do
          body ← or_panic (slice_from header_size msg)
          rsp ← or_fail (json.login_rsp body) (utf8 "wrong login response")
          pure tt)
        else if head.main_type == msg_heartbeat
        then heartbeat now ref
        else pure tt
