-- ===== src/Ports/Tests.antt =====
-- Runs of the loops of the ports.
use gateway_lite.Sample.{env, no_sessions}
use gateway_lite.Protocol.Constants.{msg_nat_detect}
use gateway_lite.Ports.Datagram.{header_of, dispatch-datagram}
use gateway_lite.Common.Int.{pos}
use gateway_lite.Protocol.Header.{le_value, header_size}
use gateway_lite.Ports.{
  datagram, echo, init_stun, read_loop, binary, run, other_type, tcp_data, udp_data, tcp_error,
  udp_error,
}
use gateway_lite.Handlers.Dispatch.{dispatch}
use gateway_lite.Gateway.{UdpAddr, udp, wss, panicked, done}
use gateway_lite.Common.{
  refl, some, true, [], nat_eq, bytes_eq, Bytes, not, utf8, ◌∷◌, ◌==◌, ◌≡◌, if◌then◌else◌, ltb,
  length, ◌&&◌,
}

abbrev client : UdpAddr
client = record { ip = utf8 "1.2.3.4"; port = pos 4321 }

-- Five bytes, whose fifth is the type of a NAT detection.
abbrev five_bytes : Bytes
five_bytes = 0 ∷ 0 ∷ 0 ∷ 0 ∷ 2 ∷ []

dispatch-datagram_example :
    ((dispatch env (udp client) (datagram five_bytes) no_sessions).1 ≡ (
      if ltb (length five_bytes) header_size && (header_of five_bytes).main_type == msg_nat_detect
      then panicked
      else done tt))
    × ((dispatch env (udp client) (datagram five_bytes) no_sessions).0 ≡ record no_sessions {
      udp_sent = (dispatch env (udp client) (datagram five_bytes) no_sessions).0.udp_sent;
    })
dispatch-datagram_example = dispatch-datagram env client five_bytes no_sessions

five_bytes-panics :
    (if ltb (length five_bytes) header_size && (header_of five_bytes).main_type == msg_nat_detect
      then panicked
      else done tt)
    ≡ panicked
unfolding datagram le_value
five_bytes-panics = refl

queued_datagrams :
    run (udp_data client five_bytes ∷ udp_error ∷ udp_data client five_bytes ∷ [])
    ≡ record { sess = udp client; msg = datagram five_bytes }
      ∷ record { sess = udp (record { ip = utf8 "<nil>"; port = pos 0 }); msg = datagram [] }
      ∷ []
unfolding run
queued_datagrams = refl

queued_messages :
    (read_loop 0 (binary (datagram five_bytes) ∷ other_type (utf8 "hi") ∷ []) no_sessions).0
    ≡ record { sess = wss 0; msg = datagram five_bytes } ∷ []
unfolding read_loop
queued_messages = refl

echoed :
    echo (utf8 "1.2.3.4:5") (tcp_data (1 ∷ []) ∷ tcp_data [] ∷ tcp_error ∷ [])
    ≡ utf8 "1.2.3.4:5" ∷ utf8 "1.2.3.4:5" ∷ []
unfolding echo
echoed = refl

-- One port in use keeps the later ones from listening.
second_in_use : init_stun (λ p. true) (λ p. not (p == 27181)) ≡ some (27180 ∷ [])
unfolding init_stun
second_in_use = refl
