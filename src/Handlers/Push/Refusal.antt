-- ===== src/Handlers/Push/Refusal.antt =====
-- What a message that is refused leaves alone.
use gateway_lite.Common.{
  Bool-cases, Bytes, Option, Option-cases, ap, arith, bytes_eq, delete, inl, inr, lookup, ltb,
  nat_eq, none, refl, some, subst, utf8, ℕ, ◌==◌, ◌||◌, ◌≡◌, ◌≢◌, ◌⊎◌,
}
use gateway_lite.Clock.{Totp, unix}
use gateway_lite.Protocol.Slice.{Slice, slice_from}
use gateway_lite.Protocol.Header.{Header, PushHeader}
use gateway_lite.Protocol.Constants.{push_connect_req, push_rsp}
use gateway_lite.Protocol.Messages.{Json, PushConnectReq, push_rsp_of}
use gateway_lite.Gateway.{
  World, Session, wss, Outcome, done, failed, panicked, blocked, M, ◌>>=◌, and_then, read_header,
  read_push_header, as_wss, session, write, write_buff,
}
use gateway_lite.Gateway.Actions.{
  Writes, write-Writes, write-ne-failed, write_buff-ne-failed, read_header-same,
  read_push_header-same, session-same,
}
use gateway_lite.Common.Int.{pos}
use gateway_lite.Handlers.Push.{
  is_support_msg, is_by_pass_msg, delivered, deny, grant, connect, check_permission, authorize,
  forward, push_to, route, handle, push_denied, peer_offline,
}

-- Two worlds that agree on every session but one, on who is online and on the store.
pub record Contained (ref : ℕ) (w v : World) : Type 0 where
  pub others : (r : ℕ) → ref ≢ r → lookup r v.sessions ≡ lookup r w.sessions
  pub all_sessions : v.all_sessions ≡ w.all_sessions
  pub store : v.store ≡ w.store

Contained-refl : (ref : ℕ) (w : World) → Contained ref w w
Contained-refl ref w = record { others = λ r h. refl; all_sessions = refl; store = refl }

Writes-Contained : {ref : ℕ} {w v : World} → Writes ref w v → Contained ref w v
Writes-Contained p = record { others = p.others; all_sessions = p.all_sessions; store = p.store }

and_then-fail :
    {A : Type 0} (B : Type 0) (w : World) (o : Outcome A) (error : Bytes)
    → (and_then {B = B} w o (λ _ u. (u, failed error))).0 ≡ w
and_then-fail B w (done a) error = refl
and_then-fail B w (failed e) error = refl
and_then-fail B w panicked error = refl
and_then-fail B w blocked error = refl

-- A sequence that fails does so in its first part or in its second.
and_then-failed :
    {A B : Type 0} (w : World) (o : Outcome A) (f : A → M B) {v : World} {e : Bytes}
    → and_then w o f ≡ (v, failed e)
    → ((o ≡ failed e) × (w ≡ v)) ⊎ ((a : A) × (f a w ≡ (v, failed e)))
and_then-failed w (done a) f h = inr (a, h)
and_then-failed w (failed d) f h = inl (ground arith)
and_then-failed w panicked f h = absurd (grind arith)
and_then-failed w blocked f h = absurd (grind arith)

read_then-failed :
    {A B : Type 0} (m : M A) (f : A → M B) (w : World) {v : World} {e : Bytes}
    → (m w).0 ≡ w
    → (m >>= f) w ≡ (v, failed e)
    → (w ≡ v) ⊎ ((a : A) × (f a w ≡ (v, failed e)))
read_then-failed m f w same h = elim (and_then-failed (m w).0 (m w).1 f h) [
  | inl p ↦ inl (rw same at p.1)
  | inr (a, q) ↦ inr (a, rw same at q)
]

-- The world that a run leaves, under its other name.
moved :
    {ref : ℕ} {w v : World} {r : World × Outcome Unit} {e : Bytes}
    → r ≡ (v, failed e)
    → Contained ref w r.0
    → Contained ref w v
moved {ref} {w} h c = subst (λ x. Contained ref w x) (ap (λ (x : World × Outcome Unit). x.0) h) c

module _ (json : Json) (totp : Totp) where
  deny-Contained :
      (from_ref : ℕ) (head : Header) (detail error : Bytes) (w : World)
      → Contained from_ref w (deny json totp from_ref head detail error w).0
  unfolding deny
  deny-Contained from_ref head detail error w =
      let p = push_rsp_of (record { error = pos 1; detail = detail }) in
      let c = Writes-Contained (write-Writes json from_ref head.main_type push_rsp p w) in
      rw (and_then-fail Unit (write json from_ref head.main_type push_rsp p w).0 _ error) c

  forward-ne-failed :
      (from_ref to_ref : ℕ) (head : Header) (push : PushHeader) (msg : Slice) (w v : World)
      (e : Bytes)
      → forward json totp from_ref to_ref head push msg w ≢ (v, failed e)
  unfolding forward
  forward-ne-failed from_ref to_ref head push msg w v e h =
      elim (and_then-failed (write_buff to_ref msg.bytes w).0 (write_buff to_ref msg.bytes w).1 _
        h) [
          | inl p ↦ write_buff-ne-failed to_ref msg.bytes w e p.0
          | inr (a, q) ↦
              write-ne-failed json from_ref head.main_type push_rsp
                (push_rsp_of (record { error = pos 0; detail = delivered head push })) _ e
                (ap (λ (x : World × Outcome Unit). x.1) q)
        ]

  grant-Contained :
      (now from_ref : ℕ) (head : Header) (push : PushHeader) (to_sess : Session)
      (req : PushConnectReq) (w : World)
      → Contained from_ref w (grant json totp now from_ref head push to_sess req w).0
  unfolding grant
  grant-Contained now from_ref head push to_sess req w =
      elim (Bool-cases
        (totp.verify req.token to_sess.token (unix now) || to_sess.token == req.from_token)) [
          | inl y ↦
              rw (y, grant) (record { others = λ r k. refl; all_sessions = refl; store = refl })
          | inr n ↦
              rw (n, grant)
                (deny-Contained from_ref head (utf8 "MsgPushConnectReq push denied") push_denied w)
        ]

  connect-Contained :
      (now from_ref : ℕ) (head : Header) (push : PushHeader) (to_sess : Session) (msg : Slice)
      (w : World)
      → Contained from_ref w (connect json totp now from_ref head push to_sess msg w).0
  unfolding connect
  connect-Contained now from_ref head push to_sess msg w = elim (Option-cases (slice_from 24 msg)) [
    | inl n ↦ rw (n, connect) (Contained-refl from_ref w)
    | inr (body, e) ↦ elim (Option-cases (json.push_connect_req body)) [
      | inl n ↦ rw (e, n, connect) (Contained-refl from_ref w)
      | inr (req, f) ↦ rw (e, f, connect) (grant-Contained now from_ref head push to_sess req w)
    ]
  ]

  check_permission-Contained :
      (now from_ref : ℕ) (head : Header) (push : PushHeader) (w : World)
      → Contained from_ref w (check_permission json totp now from_ref head push w).0
  unfolding check_permission
  check_permission-Contained now from_ref head push w =
      elim (Option-cases (lookup push.from w.push_permission)) [
        | inl e ↦ rw (e, check_permission) (deny-Contained from_ref head push_denied push_denied w)
        | inr (info, e) ↦ elim (Bool-cases (ltb now info.expired_at)) [
          | inl y ↦ rw (e, y, check_permission) (Contained-refl from_ref w)
          | inr n ↦
              let c =
                deny-Contained from_ref head push_denied push_denied
                  (record w { push_permission = delete push.from w.push_permission }) in
              rw (e, n, check_permission)
                (record { others = c.others; all_sessions = c.all_sessions; store = c.store })
        ]
      ]

  authorize-Contained :
      (now from_ref : ℕ) (head : Header) (push : PushHeader) (to_sess : Session) (msg : Slice)
      (w : World)
      → Contained from_ref w (authorize json totp now from_ref head push to_sess msg w).0
  unfolding authorize
  authorize-Contained now from_ref head push to_sess msg w =
      elim (Bool-cases (head.sub_type == push_connect_req)) [
        | inl y ↦ rw (y, authorize) (connect-Contained now from_ref head push to_sess msg w)
        | inr n ↦ elim (Bool-cases (is_by_pass_msg head.sub_type)) [
          | inl b ↦ rw (n, b, authorize) (Contained-refl from_ref w)
          | inr c ↦ rw (n, c, authorize) (check_permission-Contained now from_ref head push w)
        ]
      ]

  push_to-failed :
      (now from_ref : ℕ) (head : Header) (push : PushHeader) (msg : Slice) (peer : Option ℕ)
      (w v : World) (e : Bytes)
      → push_to json totp now from_ref head push msg peer w ≡ (v, failed e)
      → Contained from_ref w v
  unfolding push_to
  push_to-failed now from_ref head push msg none w v e h =
      moved h (deny-Contained from_ref head peer_offline peer_offline w)
  push_to-failed now from_ref head push msg (some to_ref) w v e h =
      elim (read_then-failed (session to_ref) _ w (session-same to_ref w) h) [
        | inl p ↦ rw (← p) (Contained-refl from_ref w)
        | inr (s, q) ↦
            let u = authorize json totp now from_ref head push s msg w in
            elim (and_then-failed u.0 u.1 _ q) [
              | inl p ↦ rw (← p.1) (authorize-Contained now from_ref head push s msg w)
              | inr (a, r) ↦ absurd (forward-ne-failed from_ref to_ref head push msg u.0 v e r)
            ]
      ]

  route-failed :
      (now from_ref : ℕ) (head : Header) (push : PushHeader) (msg : Slice) (w v : World) (e : Bytes)
      → route json totp now from_ref head push msg w ≡ (v, failed e)
      → Contained from_ref w v
  unfolding route
  route-failed now from_ref head push msg w v e h =
      elim (Bool-cases (is_support_msg head.sub_type)) [
        | inl y ↦
            push_to-failed now from_ref head push msg (lookup push.to w.all_sessions) w v e
              (ground arith)
        | inr n ↦
            let detail = utf8 "push denied: unSupported msg " in
            let k : deny json totp from_ref head detail push_denied w ≡ (v, failed e) =
              ground arith in
            moved k (deny-Contained from_ref head detail push_denied w)
      ]

  -- A message from a websocket session that the handler refuses with an error leaves every other
  -- session as it was, and also who is online and what is stored.
  pub handle-failed :
      (now ref : ℕ) (msg : Slice) (w v : World) (e : Bytes)
      → handle json totp now (wss ref) msg w ≡ (v, failed e)
      → Contained ref w v
  unfolding handle as_wss
  handle-failed now ref msg w v e h =
      elim (read_then-failed (read_header msg) _ w (read_header-same msg w) h) [
        | inl p ↦ rw (← p) (Contained-refl ref w)
        | inr (head, p) ↦
            elim (read_then-failed (read_push_header msg) _ w (read_push_header-same msg w) p) [
              | inl q ↦ rw (← q) (Contained-refl ref w)
              | inr (push, q) ↦ route-failed now ref head push msg w v e q
            ]
      ]
