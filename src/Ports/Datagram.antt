-- ===== src/Ports/Datagram.antt =====
-- A datagram on its way: the buffer of `UDPServer.run` in udpsession.go, the header read and the table of
-- msghandler.go, and the handlers, of which only that of nathandler.go takes the sender of a datagram.
use gateway_lite.Protocol.Constants.{msg_nat_detect}
use gateway_lite.Protocol.Messages.{Json, Packet}
use gateway_lite.Protocol.Slice.{slice_range, slice_to, slice_from}
use gateway_lite.Protocol.Header.{
  Header, decode_header, decode_push_header, PushHeader, header_size, le_value, push_header_size,
  new_message,
}
use gateway_lite.Ports.{datagram, udp_buffer_size}
use gateway_lite.Handlers.Dispatch.{
  Env, dispatch, handler, handle_message, registered, HandlerKind, login_handler, push_handler,
  relay_handler, report_handler, query_handler, sdwan_handler, nat_handler, logged, log_error,
}
use gateway_lite.Gateway.{
  World, as_wss, read_header, read_push_header, done, UdpAddr, as_udp, udp, failed, udp_write,
  conversion_error, panicked,
}
use gateway_lite.Handlers.Nat
use gateway_lite.Handlers.Login
use gateway_lite.Handlers.Push
use gateway_lite.Handlers.Relay
use gateway_lite.Handlers.Report
use gateway_lite.Handlers.Query
use gateway_lite.Handlers.Sdwan
use gateway_lite.Common.{
  refl, nat_eq, bytes_eq, Bytes, length, ◌++◌, take, ◌≡◌, arith, drop, length-append, replicate,
  ◌-◌, length-replicate, length-take, false, ltb, ℕ, ◌+◌, length-drop, if◌then◌else◌, inl, inr,
  Bool-cases, ◌∙◌, Option-cases, some, lookup, ◌&&◌, ◌==◌, nat_beq_iff, ◌≢◌, ne_of_beq,
}

-- The whole buffer of a datagram.
abbrev pub buffer : Bytes → Bytes
buffer payload = (datagram payload).bytes ++ (datagram payload).spare

length-buffer : (payload : Bytes) → length (buffer payload) ≡ udp_buffer_size
unfolding datagram
length-buffer payload =
    let got = take udp_buffer_size payload in
    omega (
      arith,
      length-append got (replicate (udp_buffer_size - length got) 0),
      length-replicate {A = ℕ} (udp_buffer_size - length got) 0,
      length-take udp_buffer_size payload,
    )

-- The header that the gateway reads of a datagram, zeros included.
abbrev pub header_of : Bytes → Header
header_of payload =
    let start = take header_size (buffer payload) in
    record {
      data_len = le_value (take 4 start);
      main_type = le_value (take 2 (drop 4 start));
      sub_type = le_value (take 2 (drop 6 start));
    }

read_header-datagram :
    (payload : Bytes) (w : World) → read_header (datagram payload) w ≡ (w, done (header_of payload))
unfolding read_header slice_to decode_header
read_header-datagram payload w =
    let long : ltb (length (buffer payload)) header_size ≡ false =
      rw (length-buffer payload) refl in
    let whole : ltb (length (take header_size (buffer payload))) header_size ≡ false =
      rw (length-take header_size (buffer payload), length-buffer payload) refl in
    rw (long, whole) refl

read_push_header-datagram :
    (payload : Bytes) (w : World)
    → (h : PushHeader) × (read_push_header (datagram payload) w ≡ (w, done h))
unfolding read_push_header slice_range decode_push_header
read_push_header-datagram payload w =
    let n = header_size + push_header_size in
    let got = take n (buffer payload) in
    let long : ltb (length (buffer payload)) n ≡ false = rw (length-buffer payload) refl in
    let whole : ltb (length (drop header_size got)) push_header_size ≡ false =
      rw (length-drop header_size got, length-take n (buffer payload), length-buffer payload)
        refl in
    let body = drop header_size got in
    (
      record { from = le_value (take 8 body); to = le_value (take 8 (drop 8 body)) },
      rw (long, whole) refl,
    )

-- What the other handlers make of a datagram.
refused :
    (env : Env) (hi : HandlerKind) (addr : UdpAddr) (payload : Bytes) (w : World)
    → (hi ≡ nat_handler → ⊥)
    → (e : Bytes) × (handle_message env hi (udp addr) (datagram payload) w ≡ (w, failed e))
unfolding handle_message as_wss Login.handle Push.handle Relay.handle Report.handle Query.handle
    Sdwan.handle
refused env login_handler addr payload w h =
    (conversion_error, rw (read_header-datagram payload w) refl)
refused env push_handler addr payload w h =
    let (p, e) = read_push_header-datagram payload w in
    (conversion_error, rw (read_header-datagram payload w, e) refl)
refused env relay_handler addr payload w h =
    (conversion_error, rw (read_header-datagram payload w) refl)
refused env report_handler addr payload w h =
    (conversion_error, rw (read_header-datagram payload w) refl)
refused env query_handler addr payload w h =
    (conversion_error, rw (read_header-datagram payload w) refl)
refused env sdwan_handler addr payload w h =
    (conversion_error, rw (read_header-datagram payload w) refl)
refused env nat_handler addr payload w h = absurd (h refl)

-- What is cut off is past the header.
short_datagram :
    (payload : Bytes)
    → ltb (length (datagram payload).bytes) header_size ≡ ltb (length payload) header_size
unfolding datagram
short_datagram payload = rw (length-take udp_buffer_size payload) (ground arith)

udp_write-sends :
    (json : Json) (addr : UdpAddr) (main_type sub_type : ℕ) (packet : Packet) (w : World)
    → (log_error (udp_write json addr main_type sub_type packet w).1 ≡ done tt)
      × ((udp_write json addr main_type sub_type packet w).0
          ≡ record w { udp_sent = (udp_write json addr main_type sub_type packet w).0.udp_sent })
unfolding udp_write
udp_write-sends json addr main_type sub_type packet w =
    elim (Option-cases (new_message main_type sub_type (json.marshal packet))) [
      | inl e ↦ rw (e, udp_write, log_error) (refl, refl)
      | inr (msg, e) ↦ rw (e, udp_write, log_error) (refl, refl)
    ]

-- The handler of the NAT detection on a datagram of its type.
detected :
    (json : Json) (addr : UdpAddr) (payload : Bytes) (w : World)
    → (header_of payload).main_type ≡ msg_nat_detect
    → (log_error (Nat.handle json (udp addr) (datagram payload) w).1
        ≡ (if ltb (length payload) header_size then panicked else done tt))
      × ((Nat.handle json (udp addr) (datagram payload) w).0
          ≡ record w { udp_sent = (Nat.handle json (udp addr) (datagram payload) w).0.udp_sent })
unfolding Nat.handle as_udp slice_from
detected json addr payload w t = elim (Bool-cases (ltb (length payload) header_size)) [
  | inl y ↦
      let short = short_datagram payload ∙ y in
      rw (read_header-datagram payload w, t, short, y) (refl, refl)
  | inr n ↦
      let long = short_datagram payload ∙ n in
      let body = drop header_size (datagram payload).bytes in
      elim (Option-cases (json.nat_detect_req body)) [
        | inl e ↦ rw (read_header-datagram payload w, t, long, n, e) (refl, refl)
        | inr (req, e) ↦
            rw (read_header-datagram payload w, t, long, n, e) (udp_write-sends json addr _ _ _ w)
      ]
]

-- The handler of a type, where it is that of the NAT detection.
registered-nat : (t : ℕ) → lookup t registered ≡ some nat_handler → t ≡ msg_nat_detect
registered-nat t h = ground arith

dispatched :
    (env : Env) (addr : UdpAddr) (payload : Bytes) (w : World)
    → dispatch env (udp addr) (datagram payload) w
      ≡ logged (handler env (header_of payload).main_type (udp addr) (datagram payload)) w
unfolding dispatch
dispatched env addr payload w = rw (read_header-datagram payload w) refl

-- A type that is not that of the NAT detection: the message is dropped, or refused by its handler.
passed :
    (env : Env) (addr : UdpAddr) (payload : Bytes) (w : World) (t : ℕ)
    → t ≢ msg_nat_detect
    → logged (handler env t (udp addr) (datagram payload)) w ≡ (w, done tt)
unfolding handler
passed env addr payload w t n = elim (Option-cases (lookup t registered)) [
  | inl e ↦ rw (e, handler) refl
  | inr (hi, e) ↦
      let (text, f) = refused env hi addr payload w (λ same. n (registered-nat t (rw same at e))) in
      rw (e, handler, f) refl
]

nat_handled :
    (env : Env) (addr : UdpAddr) (payload : Bytes) (w : World) (t : ℕ)
    → t ≡ msg_nat_detect
    → logged (handler env t (udp addr) (datagram payload)) w
      ≡ logged (Nat.handle env.json (udp addr) (datagram payload)) w
unfolding handler handle_message
nat_handled env addr payload w t e = rw e refl

-- Whatever a datagram brings, the gateway comes to an end with it and at most sends datagrams, except
-- that it panics for one of fewer than eight bytes that its buffer, zeros included, shows as a NAT
-- detection.
pub dispatch-datagram :
    (env : Env) (addr : UdpAddr) (payload : Bytes) (w : World)
    → ((dispatch env (udp addr) (datagram payload) w).1 ≡ (
        if ltb (length payload) header_size && (header_of payload).main_type == msg_nat_detect
        then panicked
        else done tt))
      × ((dispatch env (udp addr) (datagram payload) w).0
          ≡ record w { udp_sent = (dispatch env (udp addr) (datagram payload) w).0.udp_sent })
dispatch-datagram env addr payload w =
    let t = (header_of payload).main_type in
    let short = ltb (length payload) header_size in
    elim (Bool-cases (t == msg_nat_detect)) [
      | inl y ↦
          let e : t ≡ msg_nat_detect = (nat_beq_iff t msg_nat_detect).0 y in
          let same : (short && t == msg_nat_detect) ≡ short = ground (arith, y) in
          let whole = dispatched env addr payload w ∙ nat_handled env addr payload w t e in
          rw (whole, same) (detected env.json addr payload w e)
      | inr n ↦
          let same : (short && t == msg_nat_detect) ≡ false = ground (arith, n) in
          let whole =
            dispatched env addr payload w
            ∙ passed env addr payload w t (ne_of_beq t msg_nat_detect n) in
          rw (whole, same) (refl, refl)
    ]
