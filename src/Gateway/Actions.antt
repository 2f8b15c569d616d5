-- ===== src/Gateway/Actions.antt =====
-- What the actions leave alone, and how a sequence of actions ends.
use gateway_lite.Common.{
  Bool-cases, Bytes, Option-cases, arith, beq_false, bytes_eq, inl, inr, lookup, lookup-insert_ne,
  nat_eq, refl, ℕ, ◌≡◌, ◌≢◌,
}
use gateway_lite.Protocol.Header.{new_message}
use gateway_lite.Protocol.Messages.{Json, Packet}
use gateway_lite.Protocol.Slice.{Slice}
use gateway_lite.Gateway.{
  World, Session, Outcome, done, failed, panicked, blocked, M, ◌>>=◌, and_then, session, write_buff,
  write, read_header, read_push_header, as_wss, Sender, wss, udp, put_session,
}

-- A sequence ends well only when its first part does, and then as its second part does.
pub and_then-done :
    {A B : Type 0} (w : World) (o : Outcome A) (f : A → M B) {v : World} {b : B}
    → and_then w o f ≡ (v, done b)
    → (a : A) × (o ≡ done a) × (f a w ≡ (v, done b))
and_then-done w (done a) f h = (a, refl, h)
and_then-done w (failed e) f h = absurd (grind arith)
and_then-done w panicked f h = absurd (grind arith)
and_then-done w blocked f h = absurd (grind arith)

-- A read that a sequence begins with leaves the world to the rest.
pub read_then-done :
    {A B : Type 0} (m : M A) (f : A → M B) (w : World) {v : World} {b : B}
    → (m w).0 ≡ w
    → (m >>= f) w ≡ (v, done b)
    → (a : A) × (m w ≡ (w, done a)) × (f a w ≡ (v, done b))
read_then-done m f w same h =
    let a = and_then-done (m w).0 (m w).1 f h in (a.0, ground (arith, same, a.1), rw same at a.2)

-- Two worlds that differ at most in the channels of one session.
pub record Writes (ref : ℕ) (w v : World) : Type 0 where
  pub others : (r : ℕ) → ref ≢ r → lookup r v.sessions ≡ lookup r w.sessions
  pub all_sessions : v.all_sessions ≡ w.all_sessions
  pub push_permission : v.push_permission ≡ w.push_permission
  pub store : v.store ≡ w.store
  pub connect_result : v.connect_result ≡ w.connect_result
  pub online_nodes : v.online_nodes ≡ w.online_nodes
  pub udp_sent : v.udp_sent ≡ w.udp_sent

pub Writes-refl : (ref : ℕ) (w : World) → Writes ref w w
Writes-refl ref w = record {
  others = λ r h. refl;
  all_sessions = refl;
  push_permission = refl;
  store = refl;
  connect_result = refl;
  online_nodes = refl;
  udp_sent = refl;
}

pub put_session-Writes : (ref : ℕ) (s : Session) (w : World) → Writes ref w (put_session ref s w)
put_session-Writes ref s w = record {
  others = λ r h. lookup-insert_ne ref r s w.sessions (beq_false ref r h);
  all_sessions = refl;
  push_permission = refl;
  store = refl;
  connect_result = refl;
  online_nodes = refl;
  udp_sent = refl;
}

-- What `write_buff` does, from the session and its two flags.
pub write_buff-Writes : (ref : ℕ) (msg : Bytes) (w : World) → Writes ref w (write_buff ref msg w).0
unfolding write_buff session
write_buff-Writes ref msg w = elim (Option-cases (lookup ref w.sessions)) [
  | inl e ↦ rw (e, write_buff) (Writes-refl ref w)
  | inr (s, e) ↦ elim (Bool-cases s.running) [
    | inr stop ↦ rw (e, write_buff, stop) (Writes-refl ref w)
    | inl go ↦ elim (Bool-cases s.closed) [
      | inl c ↦ rw (e, write_buff, go, c) (Writes-refl ref w)
      | inr c ↦ rw (e, write_buff, go, c) (put_session-Writes ref _ w)
    ]
  ]
]

pub write-Writes :
    (json : Json) (ref main_type sub_type : ℕ) (packet : Packet) (w : World)
    → Writes ref w (write json ref main_type sub_type packet w).0
unfolding write
write-Writes json ref main_type sub_type packet w =
    elim (Option-cases (new_message main_type sub_type (json.marshal packet))) [
      | inl e ↦ rw (e, write) (Writes-refl ref w)
      | inr (msg, e) ↦ rw (e, write) (write_buff-Writes ref msg w)
    ]

-- A write returns no error.
pub write_buff-ne-failed :
    (ref : ℕ) (msg : Bytes) (w : World) (e : Bytes) → (write_buff ref msg w).1 ≢ failed e
unfolding write_buff session
write_buff-ne-failed ref msg w e = ground arith

pub write-ne-failed :
    (json : Json) (ref main_type sub_type : ℕ) (packet : Packet) (w : World) (e : Bytes)
    → (write json ref main_type sub_type packet w).1 ≢ failed e
unfolding write
write-ne-failed json ref main_type sub_type packet w e =
    elim (Option-cases (new_message main_type sub_type (json.marshal packet))) [
      | inl n ↦ rw (n, write) (λ h. grind arith)
      | inr (msg, s) ↦ rw (s, write) (write_buff-ne-failed ref msg w e)
    ]

-- The reads change nothing.
pub read_header-same : (msg : Slice) (w : World) → (read_header msg w).0 ≡ w
unfolding read_header
read_header-same msg w = ground arith

pub read_push_header-same : (msg : Slice) (w : World) → (read_push_header msg w).0 ≡ w
unfolding read_push_header
read_push_header-same msg w = ground arith

pub as_wss-same : (sender : Sender) (w : World) → (as_wss sender w).0 ≡ w
unfolding as_wss
as_wss-same (wss ref) w = refl
as_wss-same (udp addr) w = refl

pub session-same : (ref : ℕ) (w : World) → (session ref w).0 ≡ w
unfolding session
session-same ref w = ground arith
