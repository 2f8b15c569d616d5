-- ===== src/Handlers/Push/Delivery.antt =====
-- Which messages reach a peer, and what a refused one changes.
use gateway_lite.Common.{
  Bool-cases, Bytes, Option-cases, ap, arith, bytes_eq, delete, inl, inr, lookup, ltb, nat_beq_iff,
  nat_eq, some, true, utf8, ℕ, ◌==◌, ◌≡◌, ◌⊎◌,
}
use gateway_lite.Clock.{Totp}
use gateway_lite.Protocol.Slice.{Slice, slice_to, slice_range, slice_from}
use gateway_lite.Protocol.Header.{Header, PushHeader, decode_header, decode_push_header}
use gateway_lite.Protocol.Constants.{push_connect_req, push_rsp}
use gateway_lite.Protocol.Messages.{Json, PushConnectReq, push_rsp_of}
use gateway_lite.Gateway.{
  World, Session, Sender, wss, udp, Outcome, done, and_then, read_header, read_push_header, as_wss,
  session, write_buff,
}
use gateway_lite.Gateway.Actions.{
  and_then-done, read_then-done, read_header-same, read_push_header-same, as_wss-same,
}
use gateway_lite.Gateway.Queues.{Queued, write-Queued, write_buff-done}
use gateway_lite.Common.Int.{pos}
use gateway_lite.Handlers.Push.{
  delivered, is_support_msg, is_by_pass_msg, check_permission, authorize, forward, push_to, route,
  handle, push_denied, peer_offline,
}
use gateway_lite.Handlers.Push.Permission.{
  Permitted, IsCredential, connect-done, check_permission-done, deny-ne-done,
}

-- The two headers of a message, as the handler reads them.
abbrev pub Reads : Slice → Header → PushHeader → Type 0
Reads msg head push =
    ((b : Bytes) × (slice_to 8 msg ≡ some b) × (decode_header b ≡ some head))
    × ((b : Bytes) × (slice_range 8 24 msg ≡ some b) × (decode_push_header b ≡ some push))

module _ (json : Json) (totp : Totp) where
  -- The right to push a message: credentials of the peer, a message that needs none, or a
  -- permission that has not run out.
  abbrev pub Right : ℕ → Header → PushHeader → Session → Slice → World → Type 0
  Right now head push to_sess msg w =
      ((head.sub_type ≡ push_connect_req)
        × ((body : Bytes) × (req : PushConnectReq) × (slice_from 24 msg ≡ some body)
            × (json.push_connect_req body ≡ some req)
            × IsCredential json totp now to_sess req))
      ⊎ ((is_by_pass_msg head.sub_type ≡ true) ⊎ Permitted json totp now push w)

  permitted-same :
      (now from_ref : ℕ) (head : Header) (push : PushHeader) (w v : World)
      → check_permission json totp now from_ref head push w ≡ (v, done tt)
      → v.sessions ≡ w.sessions
  unfolding check_permission
  permitted-same now from_ref head push w v h =
      elim (Option-cases (lookup push.from w.push_permission)) [
        | inl e ↦
            absurd (deny-ne-done json totp from_ref head push_denied push_denied w (ground arith))
        | inr (info, e) ↦ elim (Bool-cases (ltb now info.expired_at)) [
          | inl y ↦ ground arith
          | inr n ↦ absurd (
              deny-ne-done json totp from_ref head push_denied push_denied
                (record w { push_permission = delete push.from w.push_permission }) (ground arith))
        ]
      ]

  -- Authorising changes permissions at most, where it ends well.
  authorize-done :
      (now from_ref : ℕ) (head : Header) (push : PushHeader) (to_sess : Session) (msg : Slice)
      (w v : World)
      → authorize json totp now from_ref head push to_sess msg w ≡ (v, done tt)
      → Right now head push to_sess msg w × (v.sessions ≡ w.sessions)
  unfolding authorize
  authorize-done now from_ref head push to_sess msg w v h =
      elim (Bool-cases (head.sub_type == push_connect_req)) [
        | inl y ↦
            let r = connect-done json totp now from_ref head push to_sess msg w v (ground arith) in
            (inl ((nat_beq_iff _ _).0 y, r.0), ap (λ (u : World). u.sessions) r.1)
        | inr n ↦ elim (Bool-cases (is_by_pass_msg head.sub_type)) [
          | inl b ↦ (inr (inl b), ground arith)
          | inr c ↦
              let d : check_permission json totp now from_ref head push w ≡ (v, done tt) =
                ground arith in
              let p =
                (check_permission-done json totp now from_ref head push w).0
                  (ap (λ (x : World × Outcome Unit). x.1) d) in
              (inr (inr p), permitted-same now from_ref head push w v d)
        ]
      ]

  read_header-done :
      (msg : Slice) (w v : World) (head : Header)
      → read_header msg w ≡ (v, done head)
      → ((b : Bytes) × (slice_to 8 msg ≡ some b) × (decode_header b ≡ some head)) × (w ≡ v)
  unfolding read_header
  read_header-done msg w v head h = ground arith

  read_push_header-done :
      (msg : Slice) (w v : World) (push : PushHeader)
      → read_push_header msg w ≡ (v, done push)
      → ((b : Bytes) × (slice_range 8 24 msg ≡ some b) × (decode_push_header b ≡ some push))
        × (w ≡ v)
  unfolding read_push_header
  read_push_header-done msg w v push h = ground arith

  forward-done :
      (from_ref to_ref : ℕ) (head : Header) (push : PushHeader) (msg : Slice) (w v : World)
      (s : Session)
      → forward json totp from_ref to_ref head push msg w ≡ (v, done tt)
      → lookup to_ref w.sessions ≡ some s
      → s.running ≡ true
      → Queued msg.bytes to_ref v
  unfolding forward
  forward-done from_ref to_ref head push msg w v s h e go =
      let a =
        and_then-done (write_buff to_ref msg.bytes w).0 (write_buff to_ref msg.bytes w).1 _ h in
      let q =
        write_buff-done to_ref msg.bytes w (write_buff to_ref msg.bytes w).0 s (ground arith) e
          go in
      let r =
        write-Queued msg.bytes to_ref json from_ref head.main_type push_rsp
          (push_rsp_of (record { error = pos 0; detail = delivered head push }))
          (write_buff to_ref msg.bytes w).0 q in
      rw (ap (λ (x : World × Outcome Unit). x.0) a.2) at r

  -- How a message that reached its handler's end got there: the sender's session, the peer's,
  -- and what became of it.
  abbrev pub Delivered : ℕ → Sender → Slice → World → World → Type 0
  Delivered now sender msg w v =
      (head : Header) × (push : PushHeader) × (from_ref : ℕ) × (to_ref : ℕ) × (s : Session) × Reads
        msg head push
      × (sender ≡ wss from_ref)
      × (is_support_msg head.sub_type ≡ true)
      × (lookup push.to w.all_sessions ≡ some to_ref)
      × (lookup to_ref w.sessions ≡ some s)
      × Right now head push s msg w
      × (s.running ≡ true → Queued msg.bytes to_ref v)

  push_to-done :
      (now from_ref to_ref : ℕ) (head : Header) (push : PushHeader) (msg : Slice) (w v : World)
      → push_to json totp now from_ref head push msg (some to_ref) w ≡ (v, done tt)
      → (s : Session) × (lookup to_ref w.sessions ≡ some s)
        × Right now head push s msg w
        × (s.running ≡ true → Queued msg.bytes to_ref v)
  unfolding push_to session
  push_to-done now from_ref to_ref head push msg w v h =
      elim (Option-cases (lookup to_ref w.sessions)) [
        | inl e ↦ absurd (ground arith)
        | inr (s, e) ↦
            let u = (authorize json totp now from_ref head push s msg w).0 in
            let o = (authorize json totp now from_ref head push s msg w).1 in
            let k : and_then u o (λ _. forward json totp from_ref to_ref head push msg)
                ≡ (v, done tt) =
              ground (arith, e, h) in
            let a =
              and_then-done {A = Unit {0}} u o
                (λ _. forward json totp from_ref to_ref head push msg) k in
            let r = authorize-done now from_ref head push s msg w u (ground arith) in
            (s, e, r.0, λ go. forward-done from_ref to_ref head push msg u v s a.2 (rw r.1 e) go)
      ]

  route-done :
      (now from_ref : ℕ) (head : Header) (push : PushHeader) (msg : Slice) (w v : World)
      → route json totp now from_ref head push msg w ≡ (v, done tt)
      → (to_ref : ℕ) × (s : Session) × (is_support_msg head.sub_type ≡ true)
        × (lookup push.to w.all_sessions ≡ some to_ref)
        × (lookup to_ref w.sessions ≡ some s)
        × Right now head push s msg w
        × (s.running ≡ true → Queued msg.bytes to_ref v)
  unfolding route push_to
  route-done now from_ref head push msg w v h = elim (Bool-cases (is_support_msg head.sub_type)) [
    | inr n ↦ absurd (
        deny-ne-done json totp from_ref head (utf8 "push denied: unSupported msg ") push_denied w
          (ground arith))
    | inl y ↦ elim (Option-cases (lookup push.to w.all_sessions)) [
      | inl e ↦
          absurd (deny-ne-done json totp from_ref head peer_offline peer_offline w (ground arith))
      | inr (to_ref, e) ↦
          let d = push_to-done now from_ref to_ref head push msg w v (ground arith) in
          (to_ref, d.0, y, e, d.1, d.2, d.3)
    ]
  ]

  as_wss-done :
      (sender : Sender) (w v : World) (ref : ℕ) → as_wss sender w ≡ (v, done ref) → sender ≡ wss ref
  unfolding as_wss
  as_wss-done (wss r) w v ref h = ground arith
  as_wss-done (udp addr) w v ref h = absurd (ground arith)

  -- A message whose handler reports no error is one the source supports, from a websocket session,
  -- to a node that is online; its sender had the right to push it, and it is in the channel of the
  -- peer's session, where that session still runs.
  pub handle-done :
      (now : ℕ) (sender : Sender) (msg : Slice) (w v : World)
      → handle json totp now sender msg w ≡ (v, done tt)
      → Delivered now sender msg w v
  unfolding handle
  handle-done now sender msg w v h =
      let a = read_then-done (read_header msg) _ w (read_header-same msg w) h in
      let b = read_then-done (read_push_header msg) _ w (read_push_header-same msg w) a.2 in
      let c = read_then-done (as_wss sender) _ w (as_wss-same sender w) b.2 in
      let reads : Reads msg a.0 b.0 =
        ((read_header-done msg w w a.0 a.1).0, (read_push_header-done msg w w b.0 b.1).0) in
      let d = route-done now c.0 a.0 b.0 msg w v c.2 in
      (a.0, b.0, c.0, d.0, d.1, reads, as_wss-done sender w w c.0 c.1, d.2, d.3, d.4, d.5, d.6)
