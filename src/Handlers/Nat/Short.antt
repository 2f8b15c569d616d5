-- ===== src/Handlers/Nat/Short.antt =====
-- A datagram that is shorter than its header.
use gateway_lite.Common.{arith, bytes_eq, length, nat_eq, ◌<◌, ◌≡◌}
use gateway_lite.Protocol.Slice.{Slice, slice_from}
use gateway_lite.Protocol.Header.{Header}
use gateway_lite.Protocol.Constants.{msg_nat_detect}
use gateway_lite.Protocol.Messages.{Json}
use gateway_lite.Gateway.{World, udp, UdpAddr, done, panicked, read_header, as_udp}
use gateway_lite.Handlers.Nat.{handle}

module _ (json : Json) where
  -- A datagram of fewer than eight bytes whose buffer reads as a NAT detection header makes the
  -- handler panic, whatever the sender and the world.
  pub handle-short :
      (addr : UdpAddr) (msg : Slice) (head : Header) (w : World)
      → length msg.bytes < 8
      → read_header msg w ≡ (w, done head)
      → head.main_type ≡ msg_nat_detect
      → handle json (udp addr) msg w ≡ (w, panicked)
  unfolding handle as_udp slice_from
  handle-short addr msg head w short h t = rw (h, t) (ground (arith, short))
