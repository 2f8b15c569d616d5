-- ===== src/Handlers/Safe/Dispatch.antt =====
-- One round of the loop of msghandler.go: no panic on a message of a session that holds both headers,
-- with the handlers of relayhandler.go, sdwanhandler.go, loginhandler.go and nathandler.go.
use gateway_lite.Handlers.Safe.Report.{report-IsSafe}
use gateway_lite.Handlers.Relay.Choice.{choose_lem}
use gateway_lite.Gateway.Actions.{read_header-same}
use gateway_lite.Gateway.Connection.Life.{IsLive}
use gateway_lite.Handlers.Safe.Push.{push-IsSafe, query-IsSafe}
use gateway_lite.Handlers.Relay.{reserve, Entry, online, is_usable, choose, idle_time}
use gateway_lite.Protocol.NodeId.{node_name_to_id}
use gateway_lite.Protocol.Constants.{msg_login, relay_node_req, sdwan_info_req, msg_heartbeat}
use gateway_lite.Protocol.Header.{header_size}
use gateway_lite.Handlers.Login.{heartbeat}
use gateway_lite.Clock.{Totp}
use gateway_lite.Handlers.Safe.{
  IsLong, IsReady, IsSafe, and_then-IsSafe, entered-IsSafe, parsed-IsSafe, session-IsSafe,
  IsReady-IsStable, header-IsSafe, write_buff-IsSafe, write-IsSafe, online-IsReady,
}
use gateway_lite.Protocol.Slice.{Slice}
use gateway_lite.Protocol.Messages.{Json}
use gateway_lite.Handlers.Round.{reserve-Keeps, Member-deref}
use gateway_lite.Handlers.Relay
use gateway_lite.Handlers.Sdwan
use gateway_lite.Handlers.Login
use gateway_lite.Handlers.Nat
use gateway_lite.Handlers.Dispatch.{
  Env, dispatch, handler, handle_message, registered, HandlerKind, login_handler, push_handler,
  relay_handler, report_handler, query_handler, sdwan_handler, nat_handler, log_error,
}
use gateway_lite.Gateway.{
  wss, World, as_udp, read_header, done, failed, panicked, blocked, Outcome, Session,
}
use gateway_lite.Common.{
  Bool, refl, none, some, inl, inr, nat_eq, bytes_eq, ℕ, MapOrder, Bytes, Option, Bool-cases, arith,
  lookup, ◌==◌, ◌≡◌, length, Option-cases, ◌-◌, ◌≢◌, ◌≤◌,
}

module _ (json : Json) (ref : ℕ) (msg : Slice) (l : IsLong msg) where
  sdwan-IsSafe :
      (order : MapOrder) (w : World)
      → IsReady ref ref w
      → IsSafe (Sdwan.handle json order (wss ref) msg w)
  unfolding Sdwan.handle
  sdwan-IsSafe order w p = entered-IsSafe msg ref _ w l (λ head.
      elim (Bool-cases (head.sub_type == sdwan_info_req)) [
        | inl y ↦
            rw y
              (session-IsSafe ref _ w p.first (λ s e. write-IsSafe json ref _ _ _ w p.live p.first))
        | inr n ↦ rw n (λ q. cc q)
      ])

  heartbeat-IsSafe : (now : ℕ) (w : World) → IsReady ref ref w → IsSafe (heartbeat now ref w)
  unfolding heartbeat
  heartbeat-IsSafe now w p = session-IsSafe ref _ w p.first (λ s e.
      let r =
        (IsReady-IsStable ref ref).put ref s (record s { active_time = now }) w e refl refl refl
          p in
      write_buff-IsSafe ref _ _ r.live r.first)

  login-IsSafe :
      (now : ℕ) (w : World) → IsReady ref ref w → IsSafe (Login.handle json now (wss ref) msg w)
  unfolding Login.handle
  login-IsSafe now w p = entered-IsSafe msg ref _ w l (λ head.
      elim (Bool-cases (head.main_type == msg_login)) [
        | inl y ↦ rw y (
            parsed-IsSafe header_size msg json.login_rsp _ _ w (omega (arith, l.long))
              (λ rsp q. cc q))
        | inr n ↦ elim (Bool-cases (head.main_type == msg_heartbeat)) [
          | inl y ↦ rw (n, y) (heartbeat-IsSafe now w p)
          | inr x ↦ rw (n, x) (λ q. cc q)
        ]
      ])

  -- The handler refuses a session.
  nat-IsSafe : (w : World) → IsSafe (Nat.handle json (wss ref) msg w)
  unfolding Nat.handle as_udp
  nat-IsSafe w = and_then-IsSafe _ (read_header msg w).1 _ (header-IsSafe msg w l) (λ head q. cc q)

  module _ (totp : Totp) (is_loopback : Bytes → Bool) (order : MapOrder) where
    reserve-IsSafe :
        (now : ℕ) (req : Session) (o : Option Entry) (w : World)
        → IsSafe (reserve json totp is_loopback order now req o w)
    unfolding reserve
    reserve-IsSafe now req none w = λ q. cc q
    reserve-IsSafe now req (some e) w = λ q. cc q

    relay_found-IsSafe :
        (now peer_id : ℕ) (o : Option ℕ) (w : World)
        → IsReady ref ref w
        → lookup peer_id w.all_sessions ≡ o
        → IsSafe (Relay.answer json totp is_loopback order now ref peer_id o w)
    unfolding Relay.answer online
    relay_found-IsSafe now peer_id none w p e = λ q. cc q
    relay_found-IsSafe now peer_id (some peer_ref) w p e =
        let q = online-IsReady peer_id ref peer_ref w p e in
        session-IsSafe ref _ w q.first (λ req f. session-IsSafe peer_ref _ w q.second (λ peer g.
          let es = online order w in
          let usable = is_usable is_loopback req peer_id peer.ipv4 in
          let o = choose usable (now - idle_time) none es in
          let found = choose_lem is_loopback req peer_id peer.ipv4 (now - idle_time) es in
          let r =
            reserve-Keeps (IsReady ref ref) (IsReady-IsStable ref ref) json totp is_loopback order
              now req o w (λ x h. Member-deref w.sessions _ x (found.0 x h).0) p in
          and_then-IsSafe _ (reserve json totp is_loopback order now req o w).1 _
            (reserve-IsSafe now req o w) (λ rsp. write-IsSafe json ref _ _ _ _ r.live r.first)))

    relay-IsSafe :
        (now : ℕ) (w : World)
        → IsReady ref ref w
        → IsSafe (Relay.handle json totp is_loopback order now (wss ref) msg w)
    unfolding Relay.handle
    relay-IsSafe now w p = entered-IsSafe msg ref _ w l (λ head.
        elim (Bool-cases (head.sub_type == relay_node_req)) [
          | inr n ↦ rw n (λ q. cc q)
          | inl y ↦ rw y (
              parsed-IsSafe header_size msg json.relay_node_req _ _ w (omega (arith, l.long))
                (λ req. relay_found-IsSafe now (node_name_to_id req.peer_node) _ w p refl))
        ])

module _ (env : Env) (ref : ℕ) (msg : Slice) (l : IsLong msg) where
  handle_message-IsSafe :
      (hi : HandlerKind) (w : World)
      → IsReady ref ref w
      → IsSafe (handle_message env hi (wss ref) msg w)
  unfolding handle_message
  handle_message-IsSafe login_handler w = login-IsSafe env.json ref msg l env.now w
  handle_message-IsSafe push_handler w = push-IsSafe env.json env.totp ref env.now msg w l
  handle_message-IsSafe relay_handler w =
      relay-IsSafe env.json ref msg l env.totp env.is_loopback env.order env.now w
  handle_message-IsSafe report_handler w =
      report-IsSafe env.json ref msg l env.disk env.stamp env.now w
  handle_message-IsSafe query_handler w = query-IsSafe env.json env.totp ref env.now msg w l
  handle_message-IsSafe sdwan_handler w = sdwan-IsSafe env.json ref msg l env.order w
  handle_message-IsSafe nat_handler w = λ p. nat-IsSafe env.json ref msg l w

  handler-IsSafe : (t : ℕ) (w : World) → IsReady ref ref w → IsSafe (handler env t (wss ref) msg w)
  unfolding handler
  handler-IsSafe t w p = elim (Option-cases (lookup t registered)) [
    | inl e ↦ rw (e, handler) (λ q. cc q)
    | inr (hi, e) ↦ rw (e, handler) (handle_message-IsSafe hi w p)
  ]

log_error-panicked : (o : Outcome (Unit {0})) → o ≢ panicked → log_error o ≢ panicked
log_error-panicked (done a) h = λ q. cc q
log_error-panicked (failed e) h = λ q. cc q
log_error-panicked panicked h = absurd (h refl)
log_error-panicked blocked h = λ q. cc q

-- Where the session map is live, a message of at least 24 bytes from a session that the gateway has
-- does not make it panic, whatever the message says and whatever encoding/json makes of it.
pub dispatch-IsSafe :
    (env : Env) (ref : ℕ) (msg : Slice) (w : World) (s : Session)
    → 24 ≤ length msg.bytes
    → IsLive w
    → lookup ref w.sessions ≡ some s
    → (dispatch env (wss ref) msg w).1 ≢ panicked
unfolding dispatch
dispatch-IsSafe env ref msg w s long live e =
    let l : IsLong msg = record { long = long } in
    let ready : IsReady ref ref w = record { live = live; first = (s, e); second = (s, e) } in
    log_error-panicked _ (
      and_then-IsSafe _ (read_header msg w).1 _ (header-IsSafe msg w l)
        (λ head. rw (read_header-same msg w) (handler-IsSafe env ref msg l head.main_type w ready)))
