-- ===== src/Gateway/Stable.antt =====
-- Properties of the world that the actions of the handlers keep: what such a property needs, and that
-- a sequence of actions keeps it.
use gateway_lite.LoginGuard.{Guard}
use gateway_lite.Store.Data.{Disk}
use gateway_lite.Protocol.Header.{new_message}
use gateway_lite.Gateway.Actions.{as_wss-same, read_header-same, read_push_header-same}
use gateway_lite.Protocol.Messages.{Json, Packet}
use gateway_lite.Protocol.Slice.{Slice}
use gateway_lite.Common.{
  ℕ, Bool, Option, lookup, Bytes, Bool-cases, Option-cases, ltb, length, if◌then◌else◌, inl, inr,
  some, ◌-◌, ◌≡◌, nat_eq, Map, none, true, List, refl, false, [], bytes_eq, ◌++◌, ◌∷◌, sym,
}
use gateway_lite.Store.Calls.{Call, step}
use gateway_lite.Gateway.{
  World, Session, M, put_session, and_then, Outcome, Sender, as_udp, push_notify_chan, send_rsp,
  session, udp_write, write, write_buff, as_wss, or_panic, read_header, read_push_header, UdpAddr,
  or_fail, chan_size, rsp_ch_size, done, wss, ◌>>=◌, failed, udp, panicked, PushNodeInfo, blocked,
}

-- A property that every update of the handlers keeps: of a session, as long as its number and its two
-- flags stay, of the store by one of its methods, and of the other parts in any way.
pub record IsStable (P : World → Type 0) : Type 0 where
  pub put :
      (ref : ℕ) (s t : Session) (w : World)
      → lookup ref w.sessions ≡ some s
      → t.node_id ≡ s.node_id
      → t.running ≡ s.running
      → t.closed ≡ s.closed
      → P w
      → P (put_session ref t w)
  pub store :
      (disk : Disk) (stamp : Bytes) (c : Call) (w : World)
      → P w
      → P (record w { store = step w.store (disk, stamp, c) })
  pub permissions :
      (m : Map ℕ PushNodeInfo) (w : World) → P w → P (record w { push_permission = m })
  pub results : (m : Map Bytes ℕ) (w : World) → P w → P (record w { connect_result = m })
  pub notified : (l : List Bytes) (w : World) → P w → P (record w { online_nodes = l })
  pub datagrams : (l : List (UdpAddr × Bytes)) (w : World) → P w → P (record w { udp_sent = l })
  pub guarded : (g : Guard) (w : World) → P w → P (record w { guard = g })

abbrev pub Keeps : {A : Type 0} → (World → Type 0) → M A → Type 0
Keeps P m = (w : World) → P w → P (m w).0

module _ (P : World → Type 0) where
  pub and_then-Keeps :
      {A B : Type 0} (w : World) (o : Outcome A) (f : A → M B)
      → P w
      → ((a : A) → Keeps P (f a))
      → P (and_then w o f).0
  and_then-Keeps w (done a) f p k = k a w p
  and_then-Keeps w (failed e) f p k = p
  and_then-Keeps w panicked f p k = p
  and_then-Keeps w blocked f p k = p

  pub bind-Keeps :
      {A B : Type 0} (m : M A) (f : A → M B)
      → Keeps P m
      → ((a : A) → Keeps P (f a))
      → Keeps P (m >>= f)
  bind-Keeps m f k l w p = and_then-Keeps (m w).0 (m w).1 f (k w p) l

  -- What follows the reading of a session may use where it stands.
  pub session-Keeps :
      {B : Type 0} (ref : ℕ) (f : Session → M B)
      → ((s : Session) (w : World) → lookup ref w.sessions ≡ some s → P w → P (f s w).0)
      → Keeps P (session ref >>= f)
  unfolding session
  session-Keeps ref f k w p = elim (Option-cases (lookup ref w.sessions)) [
    | inl e ↦ rw e p
    | inr (s, e) ↦ rw e (k s w e p)
  ]

  pub read_header-Keeps : (msg : Slice) → Keeps P (read_header msg)
  read_header-Keeps msg w p = rw (read_header-same msg w) p

  pub read_push_header-Keeps : (msg : Slice) → Keeps P (read_push_header msg)
  read_push_header-Keeps msg w p = rw (read_push_header-same msg w) p

  pub as_wss-Keeps : (sender : Sender) → Keeps P (as_wss sender)
  as_wss-Keeps sender w p = rw (as_wss-same sender w) p

  pub as_udp-Keeps : (sender : Sender) → Keeps P (as_udp sender)
  unfolding as_udp
  as_udp-Keeps (wss ref) w p = p
  as_udp-Keeps (udp addr) w p = p

  pub or_fail-Keeps : {A : Type 0} (o : Option A) (e : Bytes) → Keeps P (or_fail o e)
  or_fail-Keeps none e w p = p
  or_fail-Keeps (some a) e w p = p

  pub or_panic-Keeps : {A : Type 0} (o : Option A) → Keeps P (or_panic o)
  or_panic-Keeps none w p = p
  or_panic-Keeps (some a) w p = p

  pub if-Keeps :
      {A : Type 0} (b : Bool) (m n : M A) → Keeps P m → Keeps P n → Keeps P (if b then m else n)
  if-Keeps true m n k l = k
  if-Keeps false m n k l = l

module _ (P : World → Type 0) (stable : IsStable P) where
  pub write_buff-Keeps : (ref : ℕ) (msg : Bytes) → Keeps P (write_buff ref msg)
  unfolding write_buff
  write_buff-Keeps ref msg = session-Keeps P ref _ (λ s w e p. elim (Bool-cases s.running) [
    | inr stop ↦ rw stop p
    | inl go ↦ elim (Bool-cases s.closed) [
      | inl c ↦ rw (go, c) p
      | inr c ↦
          rw (go, c)
            (stable.put ref s
              (record s { write_ch = s.write_ch ++ msg ∷ []; closed = false; running = true }) w e
              refl (sym go) (sym c) p)
    ]
  ])

  pub write-Keeps :
      (json : Json) (ref main_type sub_type : ℕ) (packet : Packet)
      → Keeps P (write json ref main_type sub_type packet)
  unfolding write
  write-Keeps json ref main_type sub_type packet w p =
      elim (Option-cases (new_message main_type sub_type (json.marshal packet))) [
        | inl e ↦ rw (e, write) p
        | inr (msg, e) ↦ rw (e, write) (write_buff-Keeps ref msg w p)
      ]

  pub send_rsp-Keeps : (ref : ℕ) (body : Bytes) → Keeps P (send_rsp ref body)
  unfolding send_rsp
  send_rsp-Keeps ref body = session-Keeps P ref _ (λ s w e p.
      elim (Bool-cases (ltb (length s.rsp_ch) rsp_ch_size)) [
        | inl y ↦
            rw y
              (stable.put ref s (record s { rsp_ch = s.rsp_ch ++ body ∷ [] }) w e refl refl refl p)
        | inr n ↦ rw n p
      ])

  pub udp_write-Keeps :
      (json : Json) (addr : UdpAddr) (main_type sub_type : ℕ) (packet : Packet)
      → Keeps P (udp_write json addr main_type sub_type packet)
  unfolding udp_write
  udp_write-Keeps json addr main_type sub_type packet w p =
      elim (Option-cases (new_message main_type sub_type (json.marshal packet))) [
        | inl e ↦ rw (e, udp_write) p
        | inr (msg, e) ↦ rw (e, udp_write) (stable.datagrams _ w p)
      ]

  pub push_notify_chan-Keeps : (node : Bytes) → Keeps P (push_notify_chan node)
  unfolding push_notify_chan
  push_notify_chan-Keeps node w p =
      elim (Bool-cases (ltb (length w.online_nodes) (chan_size - 100))) [
        | inl y ↦ rw (y, push_notify_chan) (stable.notified _ w p)
        | inr n ↦ rw (n, push_notify_chan) p
      ]
