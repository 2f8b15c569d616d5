-- ===== src/Gateway.antt =====
-- The state of the running gateway and the actions of its handlers: wssession.go (`wssSession`,
-- `sessionMgr`, the writes), udpsession.go (`UDPSession.write`) and notify.go (`PushNotifyChan`).
-- A session is shared by pointer, so it stands in a heap under a reference, and the session map
-- holds references: a session that a newer one has replaced lives on behind its own connection.
pub mod Actions
pub mod Stable
pub mod Sound
pub mod Loops
pub mod Deal
pub mod Reach
pub mod Connection
pub mod Queues
use gateway_lite.LoginGuard.{Guard}
use gateway_lite.Common.{
  Bool, Bytes, List, Map, Option, [], bytes_eq, if◌then◌else◌, insert, length, lookup, ltb, nat_eq,
  none, some, utf8, ℕ, ◌++◌, ◌+◌, ◌-◌, ◌∷◌,
}
use gateway_lite.Common.Int.{ℤ}
use gateway_lite.Protocol.Slice.{Slice, slice_to, slice_range, slice_from}
use gateway_lite.Protocol.Header.{
  Header, PushHeader, header_size, push_header_size, decode_header, decode_push_header, new_message,
}
use gateway_lite.Protocol.Messages.{Packet, Json}
use gateway_lite.Store.Data.{Store}

-- A session. `write_ch` is what its channel has taken, oldest first, and its write loop has not
-- sent; `rsp_ch` the answers that wait for a web request.
pub record Session : Type 0 where
  pub write_ch : List Bytes
  pub rsp_ch : List Bytes
  pub closed : Bool
  pub running : Bool
  pub node : Bytes
  pub share_band_width : ℤ
  pub user : Bytes
  pub token : ℕ
  pub node_id : ℕ
  pub nat_type : ℤ
  pub os : Bytes
  pub lan_ip : Bytes
  pub has_upnp_or_natpmp : ℤ
  pub has_ipv4 : ℤ
  pub ipv4 : Bytes
  pub ipv6 : Bytes
  pub mac : Bytes
  pub version : Bytes
  pub major_ver : ℤ
  pub active_time : ℕ
  pub relay_time : ℕ
  pub fail_nodes : Map ℕ ℕ

pub record PushNodeInfo : Type 0 where
  pub to : ℕ
  pub expired_at : ℕ

-- net.UDPAddr, its address as it prints.
pub record UdpAddr : Type 0 where
  pub ip : Bytes
  pub port : ℤ

-- The session of a message: an interface value of one of two types.
pub data Sender : Type 0 where
  wss : ℕ → Sender
  udp : UdpAddr → Sender

pub record World : Type 0 where
  pub sessions : Map ℕ Session
  pub all_sessions : Map ℕ ℕ
  pub push_permission : Map ℕ PushNodeInfo
  pub store : Store
  pub connect_result : Map Bytes ℕ
  pub online_nodes : List Bytes
  pub udp_sent : List (UdpAddr × Bytes)
  pub guard : Guard

-- How a handler ends: it returns nil or an error, a Go panic ends the process, or it waits for
-- room in a channel that only a web request empties.
pub data Outcome (A : Type 0) : Type 0 where
  done : A → Outcome A
  failed : Bytes → Outcome A
  panicked : Outcome A
  blocked : Outcome A

abbrev pub M : Type 0 → Type 0
M A = World → World × Outcome A

abbrev pub and_then : {A B : Type 0} → World → Outcome A → (A → M B) → World × Outcome B
and_then w (done a) f = f a w
and_then w (failed e) f = (w, failed e)
and_then w panicked f = (w, panicked)
and_then w blocked f = (w, blocked)

infixl 5 ◌>>=◌ ◌>>◌
abbrev pub ◌>>=◌ : {A B : Type 0} → M A → (A → M B) → M B
◌>>=◌ m f w = and_then (m w).0 (m w).1 f

abbrev pub ◌>>◌ : {B : Type 0} → M (Unit {0}) → M B → M B
m >> k = m >>= λ _. k

abbrev pub pure : {A : Type 0} → A → M A
pure a w = (w, done a)

abbrev pub fail : {A : Type 0} → Bytes → M A
fail e w = (w, failed e)

abbrev pub or_fail : {A : Type 0} → Option A → Bytes → M A
or_fail none e w = (w, failed e)
or_fail (some a) e w = (w, done a)

abbrev pub or_panic : {A : Type 0} → Option A → M A
or_panic none w = (w, panicked)
or_panic (some a) w = (w, done a)

abbrev pub gets : {A : Type 0} → (World → A) → M A
gets f w = (w, done (f w))

abbrev pub modify : (World → World) → M (Unit {0})
modify f w = (f w, done tt)

abbrev pub short_header : Bytes
short_header = utf8 "unexpected EOF"

-- binary.Read of msg[:8]
unfoldable pub read_header : Slice → M Header
read_header msg = do
  bytes ← or_panic (slice_to header_size msg)
  or_fail (decode_header bytes) short_header

-- binary.Read of msg[8:24]
unfoldable pub read_push_header : Slice → M PushHeader
read_push_header msg = do
  bytes ← or_panic (slice_range header_size (header_size + push_header_size) msg)
  or_fail (decode_push_header bytes) short_header

abbrev pub conversion_error : Bytes
conversion_error = utf8 "interface conversion error"

-- ctx.sess.(*wssSession)
unfoldable pub as_wss : Sender → M ℕ
as_wss (wss ref) = pure ref
as_wss (udp addr) = fail conversion_error

-- ctx.sess.(*UDPSession)
unfoldable pub as_udp : Sender → M UdpAddr
as_udp (wss ref) = fail conversion_error
as_udp (udp addr) = pure addr

-- Reading through a session pointer.
unfoldable pub session : ℕ → M Session
session ref w = or_panic (lookup ref w.sessions) w

abbrev pub put_session : ℕ → Session → World → World
put_session ref s w = record w { sessions = insert ref s w.sessions }

-- writeBuff: a send on the closed channel would panic. The channel has what its write loop has not
-- sent, and a send that waits for room among its ten places is taken to go through here; Goroutines
-- has the places.
unfoldable pub write_buff : ℕ → Bytes → M (Unit {0})
unfolding session
write_buff ref msg = do
  s ← session ref
  if s.running
      then (if s.closed
          then or_panic none
          else modify (put_session ref (record s { write_ch = s.write_ch ++ msg ∷ [] })))
      else pure tt

-- write: a packet that cannot be marshalled is dropped.
unfoldable pub write : Json → ℕ → ℕ → ℕ → Packet → M (Unit {0})
unfolding write_buff
write json ref main_type sub_type packet =
    elim (new_message main_type sub_type (json.marshal packet)) [
      | none ↦ pure tt
      | some msg ↦ write_buff ref msg
    ]

-- The capacity of `rspCh`.
abbrev pub rsp_ch_size : ℕ
rsp_ch_size = 10

-- rspCh <- body
unfoldable pub send_rsp : ℕ → Bytes → M (Unit {0})
unfolding session
send_rsp ref body = do
  s ← session ref
  if ltb (length s.rsp_ch) rsp_ch_size
      then modify (put_session ref (record s { rsp_ch = s.rsp_ch ++ body ∷ [] }))
      else λ w. (w, blocked)

-- UDPSession.write
unfoldable pub udp_write : Json → UdpAddr → ℕ → ℕ → Packet → M (Unit {0})
udp_write json addr main_type sub_type packet =
    elim (new_message main_type sub_type (json.marshal packet)) [
      | none ↦ pure tt
      | some msg ↦ modify (λ w. record w { udp_sent = w.udp_sent ++ (addr, msg) ∷ [] })
    ]

abbrev pub chan_size : ℕ
chan_size = 100000

-- PushNotifyChan: a node is dropped when the channel is nearly full.
unfoldable pub push_notify_chan : Bytes → M (Unit {0})
push_notify_chan node w =
    if ltb (length w.online_nodes) (chan_size - 100)
    then modify (λ v. record v { online_nodes = v.online_nodes ++ node ∷ [] }) w
    else pure tt w
