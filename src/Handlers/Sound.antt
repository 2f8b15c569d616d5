-- ===== src/Handlers/Sound.antt =====
-- pushhandler.go and queryhandler.go, and the properties of the world that Gateway/Stable describes.
use gateway_lite.Protocol.NodeId.{node_name_to_id}
use gateway_lite.Protocol.Constants.{push_rsp, query_peer_info_req}
use gateway_lite.Handlers.Stable.{entered-Keeps, parsed-Keeps}
use gateway_lite.Protocol.Slice.{Slice, slice_from}
use gateway_lite.Protocol.Header.{Header, PushHeader, header_size}
use gateway_lite.Handlers.Query.{admit}
use gateway_lite.Handlers.Push.{
  authorize, check_permission, connect, deny, push_to, route, forward, push_denied,
}
use gateway_lite.Clock.{Totp, unix, minute}
use gateway_lite.Protocol.Messages.{Json, QueryPeerInfoReq}
use gateway_lite.Gateway.Stable.{
  IsStable, Keeps, and_then-Keeps, session-Keeps, write-Keeps, read_header-Keeps, write_buff-Keeps,
  read_push_header-Keeps, as_wss-Keeps,
}
use gateway_lite.Common.{
  none, some, inl, inr, nat_eq, bytes_eq, ℕ, Bytes, Option, Option-cases, arith, Bool-cases, insert,
  lookup, ◌+◌, ◌==◌, ltb, utf8, ◌||◌,
}
use gateway_lite.Gateway.{
  World, Sender, Session, read_header, write, write_buff, read_push_header, as_wss,
}
use gateway_lite.Handlers.Push
use gateway_lite.Handlers.Query

module _ (P : World → Type 0) (stable : IsStable P) (json : Json) (totp : Totp) where
  deny-Keeps :
      (from_ref : ℕ) (head : Header) (detail error : Bytes)
      → Keeps P (deny json totp from_ref head detail error)
  unfolding deny
  deny-Keeps from_ref head detail error w p =
      and_then-Keeps P _ (write json from_ref head.main_type push_rsp _ w).1 _
        (write-Keeps P stable json from_ref _ _ _ w p) (λ u v q. q)

  connect-Keeps :
      (now from_ref : ℕ) (head : Header) (push : PushHeader) (s : Session) (msg : Slice)
      → Keeps P (connect json totp now from_ref head push s msg)
  unfolding connect
  connect-Keeps now from_ref head push s msg =
      parsed-Keeps P _ json.push_connect_req _ _ (λ req w p.
        elim (Bool-cases (totp.verify req.token s.token (unix now) || s.token == req.from_token)) [
          | inl y ↦ rw y (
              stable.permissions _ _ (
                stable.permissions
                  (insert push.from (record { to = push.to; expired_at = now + minute })
                    w.push_permission)
                  w p))
          | inr n ↦
              rw n (deny-Keeps from_ref head (utf8 "MsgPushConnectReq push denied") push_denied w p)
        ])

  check_permission-Keeps :
      (now from_ref : ℕ) (head : Header) (push : PushHeader)
      → Keeps P (check_permission json totp now from_ref head push)
  unfolding check_permission
  check_permission-Keeps now from_ref head push w p =
      elim (Option-cases (lookup push.from w.push_permission)) [
        | inl e ↦ rw (e, check_permission) (deny-Keeps from_ref head push_denied push_denied w p)
        | inr (info, e) ↦ elim (Bool-cases (ltb now info.expired_at)) [
          | inl y ↦ rw (e, check_permission, y) p
          | inr n ↦
              rw (e, check_permission, n)
                (deny-Keeps from_ref head push_denied push_denied _ (stable.permissions _ w p))
        ]
      ]

  pub authorize-Keeps :
      (now from_ref : ℕ) (head : Header) (push : PushHeader) (s : Session) (msg : Slice)
      → Keeps P (authorize json totp now from_ref head push s msg)
  unfolding authorize
  authorize-Keeps now from_ref head push s msg w p = ground (
    arith,
    p,
    connect-Keeps now from_ref head push s msg w p,
    check_permission-Keeps now from_ref head push w p,
  )

  push_to-Keeps :
      (now from_ref : ℕ) (head : Header) (push : PushHeader) (msg : Slice) (o : Option ℕ)
      → Keeps P (push_to json totp now from_ref head push msg o)
  unfolding push_to forward
  push_to-Keeps now from_ref head push msg none w p = deny-Keeps from_ref head _ _ w p
  push_to-Keeps now from_ref head push msg (some to_ref) w p =
      session-Keeps P to_ref _
        (λ s v e q.
          and_then-Keeps P _ (authorize json totp now from_ref head push s msg v).1 _
            (authorize-Keeps now from_ref head push s msg v q)
            (λ u x a.
              and_then-Keeps P _ (write_buff to_ref msg.bytes x).1 _
                (write_buff-Keeps P stable to_ref msg.bytes x a)
                (λ t y b. write-Keeps P stable json from_ref _ _ _ y b)))
        w p

  pub push-Keeps :
      (now : ℕ) (sender : Sender) (msg : Slice) → Keeps P (Push.handle json totp now sender msg)
  unfolding Push.handle route
  push-Keeps now sender msg w p =
      and_then-Keeps P _ (read_header msg w).1 _ (read_header-Keeps P msg w p) (λ head v q.
        and_then-Keeps P _ (read_push_header msg v).1 _ (read_push_header-Keeps P msg v q)
          (λ push x a.
            and_then-Keeps P _ (as_wss sender x).1 _ (as_wss-Keeps P sender x a) (λ from_ref y b.
              ground (
                arith,
                push_to-Keeps now from_ref head push msg (lookup push.to y.all_sessions) y b,
                deny-Keeps from_ref head (utf8 "push denied: unSupported msg ") push_denied y b,
              ))))

  query_answer-Keeps :
      (now ref : ℕ) (head : Header) (req : QueryPeerInfoReq) (o : Option ℕ)
      → Keeps P (Query.answer json totp now ref head req o)
  unfolding Query.answer admit
  query_answer-Keeps now ref head req none w p = write-Keeps P stable json ref _ _ _ w p
  query_answer-Keeps now ref head req (some to_ref) w p =
      session-Keeps P to_ref _
        (λ peer v e q.
          session-Keeps P ref _
            (λ s x f a. elim (Bool-cases (totp.verify req.token peer.token (unix now))) [
              | inl y ↦ rw y (
                  write-Keeps P stable json ref _ _ _ _ (
                    stable.permissions _ _ (
                      stable.permissions
                        (insert s.node_id
                          (record { to = node_name_to_id req.peer_node; expired_at = now + minute })
                          x.push_permission)
                        x a)))
              | inr n ↦ rw n a
            ])
            v q)
        w p

  pub query-Keeps :
      (now : ℕ) (sender : Sender) (msg : Slice) → Keeps P (Query.handle json totp now sender msg)
  unfolding Query.handle
  query-Keeps now sender msg = entered-Keeps P msg sender _ (λ head ref w p.
      elim (Bool-cases (head.sub_type == query_peer_info_req)) [
        | inl y ↦ rw y (
            parsed-Keeps P (slice_from header_size msg) json.query_peer_info_req _ _
              (λ req v q. query_answer-Keeps now ref head req _ v q) w p)
        | inr n ↦ rw n p
      ])
