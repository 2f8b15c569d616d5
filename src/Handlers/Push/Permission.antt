-- ===== src/Handlers/Push/Permission.antt =====
-- How long a permission lasts, and whom it serves.
use gateway_lite.Common.{
  Bool-cases, Bytes, Option-cases, arith, beq_refl, bytes_eq, inl, inr, lookup, lookup-insert, ltb,
  ltb→lt, nat_eq, refl, some, true, utf8, ℕ, ◌+◌, ◌<◌, ◌==◌, ◌↔◌, ◌≡◌, ◌≢◌, ◌⊎◌,
}
use gateway_lite.Clock.{Totp, minute, unix}
use gateway_lite.Protocol.Slice.{Slice, slice_from}
use gateway_lite.Protocol.Header.{Header, PushHeader}
use gateway_lite.Protocol.Messages.{Json, PushConnectReq}
use gateway_lite.Gateway.{World, Session, PushNodeInfo, done}
use gateway_lite.Handlers.Push.{connect, grant, check_permission, deny, permit, push_denied}

module _ (json : Json) (totp : Totp) where
  -- `deny` never ends well.
  pub deny-ne-done :
      (from_ref : ℕ) (head : Header) (detail error : Bytes) (w : World)
      → (deny json totp from_ref head detail error w).1 ≢ done tt
  unfolding deny
  deny-ne-done from_ref head detail error w = ground arith

  -- What a message without credentials of its own needs.
  abbrev pub Permitted : ℕ → PushHeader → World → Type 0
  Permitted t push w =
      (info : PushNodeInfo) × (lookup push.from w.push_permission ≡ some info)
      × (t < info.expired_at)

  pub check_permission-done :
      (t from_ref : ℕ) (head : Header) (push : PushHeader) (w : World)
      → ((check_permission json totp t from_ref head push w).1 ≡ done tt) ↔ Permitted t push w
  unfolding check_permission
  check_permission-done t from_ref head push w =
      elim (Option-cases (lookup push.from w.push_permission)) [
        | inl e ↦
            rw (e, check_permission)
              (
                λ h. absurd (deny-ne-done from_ref head push_denied push_denied w h),
                λ p. cc (e, p.1),
              )
        | inr (info, e) ↦ elim (Bool-cases (ltb t info.expired_at)) [
          | inl y ↦ rw (e, check_permission, y) (λ h. (info, refl, ltb→lt _ _ y), λ p. refl)
          | inr n ↦
              rw (e, check_permission, n)
                (
                  λ h. absurd (deny-ne-done from_ref head push_denied push_denied _ h),
                  λ p. absurd (ground arith),
                )
        ]
      ]

  -- The credentials of a connect request.
  abbrev pub IsCredential : ℕ → Session → PushConnectReq → Type 0
  IsCredential now to_sess req =
      (totp.verify req.token to_sess.token (unix now) ≡ true) ⊎ (to_sess.token ≡ req.from_token)

  grant-done :
      (now from_ref : ℕ) (head : Header) (push : PushHeader) (to_sess : Session)
      (req : PushConnectReq) (w v : World)
      → grant json totp now from_ref head push to_sess req w ≡ (v, done tt)
      → IsCredential now to_sess req
        × (v
            ≡ permit push.to
                (record { to = push.from; expired_at = now + minute })
                (permit push.from (record { to = push.to; expired_at = now + minute }) w))
  unfolding grant
  grant-done now from_ref head push to_sess req w v h =
      ground
        (arith, deny-ne-done from_ref head (utf8 "MsgPushConnectReq push denied") push_denied w)

  -- A connect request that is let through brought credentials of the peer, and leaves two
  -- permissions behind.
  pub connect-done :
      (now from_ref : ℕ) (head : Header) (push : PushHeader) (to_sess : Session) (msg : Slice)
      (w v : World)
      → connect json totp now from_ref head push to_sess msg w ≡ (v, done tt)
      → ((body : Bytes) × (req : PushConnectReq) × (slice_from 24 msg ≡ some body)
          × (json.push_connect_req body ≡ some req)
          × IsCredential now to_sess req)
        × (v
            ≡ permit push.to
                (record { to = push.from; expired_at = now + minute })
                (permit push.from (record { to = push.to; expired_at = now + minute }) w))
  unfolding connect
  connect-done now from_ref head push to_sess msg w v h = elim (Option-cases (slice_from 24 msg)) [
    | inl n ↦ absurd (ground arith)
    | inr (body, e) ↦ elim (Option-cases (json.push_connect_req body)) [
      | inl n ↦ absurd (ground arith)
      | inr (req, f) ↦
          let r = grant-done now from_ref head push to_sess req w v (ground arith) in
          ((body, req, e, f, r.0), r.1)
    ]
  ]

  -- The two permissions, whichever comes last.
  pub permit_both :
      (push : PushHeader) (k till : ℕ) (w : World)
      → (k ≡ push.from) ⊎ (k ≡ push.to)
      → (info : PushNodeInfo) × (lookup k
            (permit push.to
              (record { to = push.from; expired_at = till })
              (permit push.from (record { to = push.to; expired_at = till }) w)).push_permission
          ≡ some info)
        × (info.expired_at ≡ till)
  permit_both push k till w h = elim (Bool-cases (push.to == k)) [
    | inl y ↦ (
      record { to = push.from; expired_at = till },
      rw (lookup-insert push.to k _ _, y) refl,
      refl,
    )
    | inr n ↦
        let e : push.from ≡ k = ground arith in
        (
          record { to = push.to; expired_at = till },
          rw (lookup-insert push.to k _ _, n, lookup-insert push.from k _ _, e, beq_refl k) refl,
          refl,
        )
  ]

  -- Once a connect request is let through, each of the two nodes may push until a minute after it,
  -- to any peer and not only to the other node, and not from then on.
  pub connect_window :
      (now from_ref : ℕ) (head : Header) (push : PushHeader) (to_sess : Session) (msg : Slice)
      (w v : World) (t ref : ℕ) (later : Header) (next : PushHeader)
      → connect json totp now from_ref head push to_sess msg w ≡ (v, done tt)
      → (next.from ≡ push.from) ⊎ (next.from ≡ push.to)
      → ((check_permission json totp t ref later next v).1 ≡ done tt) ↔ (t < now + minute)
  connect_window now from_ref head push to_sess msg w v t ref later next h k =
      let p = permit_both push next.from (now + minute) w k in
      let e = (connect-done now from_ref head push to_sess msg w v h).1 in
      let f : lookup next.from v.push_permission ≡ some p.0 = rw e p.1 in
      let c = check_permission-done t ref later next v in
      (λ d. let q = c.0 d in ground (arith, f, q.1, q.2, p.2), λ l. c.1 (p.0, f, rw p.2 l))
