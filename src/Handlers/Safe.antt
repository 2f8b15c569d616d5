-- ===== src/Handlers/Safe.antt =====
-- When the handlers of a node's messages (msghandler.go and the handlers that main registers) do not
-- panic: what the actions need of the world and of the message.
pub mod Push
mod Report
pub mod Dispatch
use gateway_lite.Gateway.Actions.{read_header-same}
use gateway_lite.Protocol.Slice.Laws.{slice_to-long, slice_from-long, slice_range-long}
use gateway_lite.Gateway.Sound.{IsLive-same}
use gateway_lite.Protocol.Messages.{Json, Packet}
use gateway_lite.Protocol.Header.{Header, header_size, push_header_size, new_message}
use gateway_lite.Gateway.Stable.{IsStable}
use gateway_lite.Gateway.Connection.Life.{IsLive, put_session-IsLive}
use gateway_lite.Protocol.Slice.{Slice, slice_from}
use gateway_lite.Gateway.{
  ◌>>=◌, ◌>>◌, done, failed, panicked, blocked, wss, World, as_wss, read_header, session, write,
  write_buff, Outcome, Sender, Session, M, put_session, and_then, or_panic, or_fail,
  read_push_header,
}
use gateway_lite.Common.{
  Bool, refl, some, inl, inr, nat_eq, bytes_eq, ℕ, Bytes, lookup, ◌≡◌, ◌≢◌, Bool-cases, Option, ◌+◌,
  Option-cases, arith, ◌==◌, ◌≤◌, length, nat_beq_iff, lookup-insert_self, lookup-insert_ne, ◌∙◌,
  drop,
}

abbrev pub IsSafe : {A : Type 0} → World × Outcome A → Type 0
IsSafe o = o.1 ≢ panicked

abbrev pub IsStored : ℕ → World → Type 0
IsStored ref w = (s : Session) × (lookup ref w.sessions ≡ some s)

-- The session map is live, and the two sessions stand in the heap.
pub record IsReady (a b : ℕ) (w : World) : Type 0 where
  pub live : IsLive w
  pub first : IsStored a w
  pub second : IsStored b w

put-IsStored :
    (r ref : ℕ) (t : Session) (w : World) → IsStored r w → IsStored r (put_session ref t w)
put-IsStored r ref t w (s, e) = elim (Bool-cases (ref == r)) [
  | inl y ↦ (t, rw (← (nat_beq_iff ref r).0 y) (lookup-insert_self ref t w.sessions))
  | inr n ↦ (s, lookup-insert_ne ref r t w.sessions n ∙ e)
]

same-IsReady :
    (a b : ℕ) (v w : World)
    → v.sessions ≡ w.sessions
    → v.all_sessions ≡ w.all_sessions
    → IsReady a b w
    → IsReady a b v
same-IsReady a b v w e f p = record {
  live = IsLive-same v w e f p.live;
  first = rw e p.first;
  second = rw e p.second;
}

pub IsReady-IsStable : (a b : ℕ) → IsStable (IsReady a b)
IsReady-IsStable a b = record {
  put = λ ref s t w e i r c p. record {
    live = put_session-IsLive ref s t w e i r c p.live;
    first = put-IsStored a ref t w p.first;
    second = put-IsStored b ref t w p.second;
  };
  store = λ disk stamp c w p. same-IsReady a b _ w refl refl p;
  permissions = λ m w p. same-IsReady a b _ w refl refl p;
  results = λ m w p. same-IsReady a b _ w refl refl p;
  notified = λ l w p. same-IsReady a b _ w refl refl p;
  datagrams = λ l w p. same-IsReady a b _ w refl refl p;
  guarded = λ g w p. same-IsReady a b _ w refl refl p;
}

-- A node that is online has a session in the heap.
pub online-IsReady :
    (id a to : ℕ) (w : World) → IsReady a a w → lookup id w.all_sessions ≡ some to → IsReady a to w
online-IsReady id a to w p h =
    let e = p.live.entries id to h in record { live = p.live; first = p.first; second = (e.0, e.1) }

pub and_then-IsSafe :
    {A B : Type 0} (w : World) (o : Outcome A) (f : A → M B)
    → o ≢ panicked
    → ((a : A) → IsSafe (f a w))
    → IsSafe (and_then w o f)
and_then-IsSafe w (done a) f h k = k a
and_then-IsSafe w (failed e) f h k = λ q. cc q
and_then-IsSafe w panicked f h k = absurd (h refl)
and_then-IsSafe w blocked f h k = λ q. cc q

pub session-IsSafe :
    {B : Type 0} (ref : ℕ) (f : Session → M B) (w : World)
    → IsStored ref w
    → ((s : Session) → lookup ref w.sessions ≡ some s → IsSafe (f s w))
    → IsSafe ((session ref >>= f) w)
unfolding session
session-IsSafe ref f w (s, e) k = rw e (k s e)

pub write_buff-IsSafe :
    (ref : ℕ) (msg : Bytes) (w : World) → IsLive w → IsStored ref w → IsSafe (write_buff ref msg w)
unfolding write_buff session
write_buff-IsSafe ref msg w live (s, e) =
    let c = live.channels ref s e in
    elim (Bool-cases s.running) [
      | inl y ↦ rw (e, write_buff, y, c) (λ q. cc q)
      | inr n ↦ rw (e, write_buff, n) (λ q. cc q)
    ]

pub write-IsSafe :
    (json : Json) (ref main_type sub_type : ℕ) (packet : Packet) (w : World)
    → IsLive w
    → IsStored ref w
    → IsSafe (write json ref main_type sub_type packet w)
unfolding write
write-IsSafe json ref main_type sub_type packet w live h =
    elim (Option-cases (new_message main_type sub_type (json.marshal packet))) [
      | inl e ↦ rw (e, write) (λ q. cc q)
      | inr (msg, e) ↦ rw (e, write) (write_buff-IsSafe ref msg w live h)
    ]

-- A message of a node that holds both headers: its slice expressions are in range.
pub record IsLong (msg : Slice) : Type 0 where
  pub long : header_size + push_header_size ≤ length msg.bytes

pub header-IsSafe : (msg : Slice) (w : World) → IsLong msg → (read_header msg w).1 ≢ panicked
unfolding read_header
header-IsSafe msg w l = rw (slice_to-long header_size msg (omega (arith, l.long))) (ground arith)

pub push_header-IsSafe :
    (msg : Slice) (w : World) → IsLong msg → (read_push_header msg w).1 ≢ panicked
unfolding read_push_header
push_header-IsSafe msg w l =
    rw (slice_range-long header_size (header_size + push_header_size) msg l.long) (ground arith)

pub parsed-IsSafe :
    {A B : Type 0} (n : ℕ) (msg : Slice) (parse : Bytes → Option A) (e : Bytes) (f : A → M B)
    (w : World)
    → n ≤ length msg.bytes
    → ((a : A) → IsSafe (f a w))
    → IsSafe ((do body ← or_panic (slice_from n msg); req ← or_fail (parse body) e; f req) w)
parsed-IsSafe n msg parse e f w l k = elim (Option-cases (parse (drop n msg.bytes))) [
  | inl g ↦ rw (slice_from-long n msg l, g) (λ q. cc q)
  | inr (a, g) ↦ rw (slice_from-long n msg l, g) (k a)
]

-- How the handler of a session's message begins.
pub entered-IsSafe :
    {B : Type 0} (msg : Slice) (ref : ℕ) (f : Header → ℕ → M B) (w : World)
    → IsLong msg
    → ((head : Header) → IsSafe (f head ref w))
    → IsSafe ((do head ← read_header msg; r ← as_wss (wss ref); f head r) w)
unfolding as_wss
entered-IsSafe msg ref f w l k =
    and_then-IsSafe _ (read_header msg w).1 _ (header-IsSafe msg w l)
      (λ head. rw (read_header-same msg w) (k head))
