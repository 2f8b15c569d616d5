-- ===== src/Handlers/Safe/Push.antt =====
-- pushhandler.go and queryhandler.go: no panic on a message that holds both headers.
use gateway_lite.Gateway.Actions.{read_header-same, read_push_header-same}
use gateway_lite.Protocol.NodeId.{node_name_to_id}
use gateway_lite.Gateway.Stable.{write_buff-Keeps}
use gateway_lite.Gateway.Sound.{IsLive-same}
use gateway_lite.Protocol.Constants.{push_connect_req, push_rsp, query_peer_info_req}
use gateway_lite.Handlers.Sound.{authorize-Keeps}
use gateway_lite.Handlers.Safe.{
  IsLong, IsReady, IsSafe, IsReady-IsStable, and_then-IsSafe, entered-IsSafe, parsed-IsSafe,
  session-IsSafe, write-IsSafe, write_buff-IsSafe, header-IsSafe, online-IsReady,
  push_header-IsSafe,
}
use gateway_lite.Protocol.Slice.{Slice}
use gateway_lite.Protocol.Header.{Header, PushHeader, header_size, push_header_size}
use gateway_lite.Handlers.Query.{admit}
use gateway_lite.Clock.{Totp, unix}
use gateway_lite.Protocol.Messages.{Json, QueryPeerInfoReq}
use gateway_lite.Handlers.Push
use gateway_lite.Handlers.Query
use gateway_lite.Handlers.Push.{
  deny, connect, check_permission, authorize, forward, push_to, route, push_denied, permit,
  is_by_pass_msg, is_support_msg,
}
use gateway_lite.Gateway.{
  wss, World, Session, write, write_buff, as_wss, read_header, read_push_header,
}
use gateway_lite.Common.{
  refl, some, inl, inr, nat_eq, bytes_eq, ℕ, Bytes, Bool-cases, Option-cases, lookup, ◌==◌, ltb,
  ◌+◌, arith, ◌||◌, none, Option, ◌≡◌,
}

module _ (json : Json) (totp : Totp) (ref to_ref : ℕ) where
  deny-IsSafe :
      (head : Header) (detail error : Bytes) (w : World)
      → IsReady ref to_ref w
      → IsSafe (deny json totp ref head detail error w)
  unfolding deny
  deny-IsSafe head detail error w p =
      and_then-IsSafe _ (write json ref head.main_type push_rsp _ w).1 _
        (write-IsSafe json ref _ _ _ w p.live p.first) (λ u. λ q. cc q)

  connect-IsSafe :
      (now : ℕ) (head : Header) (push : PushHeader) (s : Session) (msg : Slice) (w : World)
      → IsLong msg
      → IsReady ref to_ref w
      → IsSafe (connect json totp now ref head push s msg w)
  unfolding connect
  connect-IsSafe now head push s msg w l p =
      parsed-IsSafe (header_size + push_header_size) msg json.push_connect_req _ _ w l.long (λ req.
        elim (Bool-cases (totp.verify req.token s.token (unix now) || s.token == req.from_token)) [
          | inl y ↦ rw y (λ q. cc q)
          | inr n ↦ rw n (deny-IsSafe head _ push_denied w p)
        ])

  check_permission-IsSafe :
      (now : ℕ) (head : Header) (push : PushHeader) (w : World)
      → IsReady ref to_ref w
      → IsSafe (check_permission json totp now ref head push w)
  unfolding check_permission
  check_permission-IsSafe now head push w p =
      elim (Option-cases (lookup push.from w.push_permission)) [
        | inl e ↦ rw (e, check_permission) (deny-IsSafe head push_denied push_denied w p)
        | inr (info, e) ↦ elim (Bool-cases (ltb now info.expired_at)) [
          | inl y ↦ rw (e, check_permission, y) (λ q. cc q)
          | inr n ↦
              rw (e, check_permission, n)
                (deny-IsSafe head push_denied push_denied _
                  ((IsReady-IsStable ref to_ref).permissions _ w p))
        ]
      ]

  authorize-IsSafe :
      (now : ℕ) (head : Header) (push : PushHeader) (s : Session) (msg : Slice) (w : World)
      → IsLong msg
      → IsReady ref to_ref w
      → IsSafe (authorize json totp now ref head push s msg w)
  unfolding authorize
  authorize-IsSafe now head push s msg w l p =
      elim (Bool-cases (head.sub_type == push_connect_req)) [
        | inl y ↦ rw y (connect-IsSafe now head push s msg w l p)
        | inr n ↦ elim (Bool-cases (is_by_pass_msg head.sub_type)) [
          | inl y ↦ rw (n, y) (λ q. cc q)
          | inr x ↦ rw (n, x) (check_permission-IsSafe now head push w p)
        ]
      ]

  push_to-IsSafe :
      (now : ℕ) (head : Header) (push : PushHeader) (msg : Slice) (w : World)
      → IsLong msg
      → IsReady ref to_ref w
      → IsSafe (push_to json totp now ref head push msg (some to_ref) w)
  unfolding push_to forward
  push_to-IsSafe now head push msg w l p =
      let ready = IsReady-IsStable ref to_ref in
      session-IsSafe to_ref _ w p.second (λ s e.
        let a = authorize json totp now ref head push s msg w in
        let q = authorize-Keeps (IsReady ref to_ref) ready json totp now ref head push s msg w p in
        and_then-IsSafe a.0 a.1 _ (authorize-IsSafe now head push s msg w l p) (λ u.
          let b = write_buff to_ref msg.bytes a.0 in
          let r = write_buff-Keeps (IsReady ref to_ref) ready to_ref msg.bytes a.0 q in
          and_then-IsSafe b.0 b.1 _ (write_buff-IsSafe to_ref msg.bytes a.0 q.live q.second)
            (λ t. write-IsSafe json ref _ _ _ b.0 r.live r.first)))

  query_answer-IsSafe :
      (now : ℕ) (head : Header) (req : QueryPeerInfoReq) (w : World)
      → IsReady ref to_ref w
      → IsSafe (Query.answer json totp now ref head req (some to_ref) w)
  unfolding Query.answer admit
  query_answer-IsSafe now head req w p = session-IsSafe to_ref _ w p.second (λ peer e.
      session-IsSafe ref _ w p.first (λ s f.
        elim (Bool-cases (totp.verify req.token peer.token (unix now))) [
          | inl y ↦ rw y (write-IsSafe json ref _ _ _ _ (IsLive-same _ w refl refl p.live) p.first)
          | inr n ↦ rw n (λ q. cc q)
        ]))

module _ (json : Json) (totp : Totp) (ref : ℕ) where
  -- What follows when the peer has been looked up, online or not.
  push_found-IsSafe :
      (now : ℕ) (head : Header) (push : PushHeader) (msg : Slice) (o : Option ℕ) (w : World)
      → IsLong msg
      → IsReady ref ref w
      → lookup push.to w.all_sessions ≡ o
      → IsSafe (push_to json totp now ref head push msg o w)
  unfolding push_to
  push_found-IsSafe now head push msg none w l p e = deny-IsSafe json totp ref ref head _ _ w p
  push_found-IsSafe now head push msg (some to_ref) w l p e =
      push_to-IsSafe json totp ref to_ref now head push msg w l
        (online-IsReady push.to ref to_ref w p e)

  query_found-IsSafe :
      (now : ℕ) (head : Header) (req : QueryPeerInfoReq) (o : Option ℕ) (w : World)
      → IsReady ref ref w
      → lookup (node_name_to_id req.peer_node) w.all_sessions ≡ o
      → IsSafe (Query.answer json totp now ref head req o w)
  unfolding Query.answer
  query_found-IsSafe now head req none w p e = write-IsSafe json ref _ _ _ w p.live p.first
  query_found-IsSafe now head req (some to_ref) w p e =
      query_answer-IsSafe json totp ref to_ref now head req w (online-IsReady _ ref to_ref w p e)

  route-IsSafe :
      (now : ℕ) (head : Header) (push : PushHeader) (msg : Slice) (w : World)
      → IsLong msg
      → IsReady ref ref w
      → IsSafe (route json totp now ref head push msg w)
  unfolding route
  route-IsSafe now head push msg w l p = elim (Bool-cases (is_support_msg head.sub_type)) [
    | inl y ↦ rw y (push_found-IsSafe now head push msg _ w l p refl)
    | inr n ↦ rw n (deny-IsSafe json totp ref ref head _ push_denied w p)
  ]

  pub push-IsSafe :
      (now : ℕ) (msg : Slice) (w : World)
      → IsLong msg
      → IsReady ref ref w
      → IsSafe (Push.handle json totp now (wss ref) msg w)
  unfolding Push.handle as_wss
  push-IsSafe now msg w l p =
      and_then-IsSafe _ (read_header msg w).1 _ (header-IsSafe msg w l) (λ head.
        rw (read_header-same msg w) (
          and_then-IsSafe _ (read_push_header msg w).1 _ (push_header-IsSafe msg w l)
            (λ push. rw (read_push_header-same msg w) (route-IsSafe now head push msg w l p))))

  pub query-IsSafe :
      (now : ℕ) (msg : Slice) (w : World)
      → IsLong msg
      → IsReady ref ref w
      → IsSafe (Query.handle json totp now (wss ref) msg w)
  unfolding Query.handle
  query-IsSafe now msg w l p = entered-IsSafe msg ref _ w l (λ head.
      elim (Bool-cases (head.sub_type == query_peer_info_req)) [
        | inr n ↦ rw n (λ q. cc q)
        | inl y ↦ rw y (
            parsed-IsSafe header_size msg json.query_peer_info_req _ _ w (omega (arith, l.long))
              (λ req. query_found-IsSafe now head req _ w p refl))
      ])
