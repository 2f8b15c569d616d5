-- ===== src/Handlers/Nat.antt =====
-- nathandler.go: the address and port that a datagram came from.
pub mod Short
use gateway_lite.Common.{bytes_eq, if◌then◌else◌, nat_eq, utf8, ◌==◌}
use gateway_lite.Common.Int.{pos}
use gateway_lite.Protocol.Slice.{Slice, slice_from}
use gateway_lite.Protocol.Header.{header_size}
use gateway_lite.Protocol.Constants.{msg_nat_detect}
use gateway_lite.Protocol.Messages.{Json, nat_detect_rsp_of}
use gateway_lite.Gateway.{Sender, M, ◌>>=◌, pure, or_fail, or_panic, read_header, as_udp, udp_write}

module _ (json : Json) where
  unfoldable pub handle : Sender → Slice → M (Unit {0})
  handle sender msg = do
    head ← read_header msg
    addr ← as_udp sender
    if head.main_type == msg_nat_detect
        then (do
          body ← or_panic (slice_from header_size msg)
          req ← or_fail (json.nat_detect_req body) (utf8 "wrong NatDetectReq")
          udp_write json addr msg_nat_detect 0
              (nat_detect_rsp_of (record { ip = addr.ip; port = addr.port; is_public_ip = pos 0 })))
        else pure tt
