-- ===== src/Handlers/Stable.antt =====
-- nathandler.go, sdwanhandler.go and loginhandler.go, and the properties of the world that
-- Gateway/Stable describes.
use gateway_lite.Protocol.Constants.{msg_login, sdwan_info_req, msg_nat_detect, msg_heartbeat}
use gateway_lite.Protocol.Header.{Header, header_size}
use gateway_lite.Handlers.Login.{heartbeat}
use gateway_lite.Protocol.Messages.{Json}
use gateway_lite.Protocol.Slice.{Slice, slice_from}
use gateway_lite.Gateway.Stable.{
  IsStable, Keeps, and_then-Keeps, session-Keeps, read_header-Keeps, write_buff-Keeps, as_wss-Keeps,
  or_panic-Keeps, as_udp-Keeps, or_fail-Keeps, write-Keeps, udp_write-Keeps,
}
use gateway_lite.Common.{
  refl, inl, inr, nat_eq, bytes_eq, Option, Bytes, MapOrder, ℕ, Bool-cases, ◌==◌,
}
use gateway_lite.Gateway.{◌>>=◌, World, Sender, M, or_panic, read_header, as_wss, or_fail, as_udp}
use gateway_lite.Handlers.Sdwan
use gateway_lite.Handlers.Nat
use gateway_lite.Handlers.Login

module _ (P : World → Type 0) where
  -- How every handler of a node's messages begins.
  pub entered-Keeps :
      {B : Type 0} (msg : Slice) (sender : Sender) (f : Header → ℕ → M B)
      → ((head : Header) (ref : ℕ) → Keeps P (f head ref))
      → Keeps P (do head ← read_header msg; ref ← as_wss sender; f head ref)
  entered-Keeps msg sender f k w p =
      and_then-Keeps P _ (read_header msg w).1 _ (read_header-Keeps P msg w p) (λ head v q.
        and_then-Keeps P _ (as_wss sender v).1 (f head) (as_wss-Keeps P sender v q) (k head))

  -- A body that is read and parsed.
  pub parsed-Keeps :
      {A B : Type 0} (o : Option Bytes) (parse : Bytes → Option A) (e : Bytes) (f : A → M B)
      → ((a : A) → Keeps P (f a))
      → Keeps P (do body ← or_panic o; req ← or_fail (parse body) e; f req)
  parsed-Keeps o parse e f k w p =
      and_then-Keeps P _ (or_panic o w).1 _ (or_panic-Keeps P o w p) (λ body v q.
        and_then-Keeps P _ (or_fail (parse body) e v).1 f (or_fail-Keeps P (parse body) e v q) k)

module _ (P : World → Type 0) (stable : IsStable P) (json : Json) where
  pub nat-Keeps : (sender : Sender) (msg : Slice) → Keeps P (Nat.handle json sender msg)
  unfolding Nat.handle
  nat-Keeps sender msg w p =
      and_then-Keeps P _ (read_header msg w).1 _ (read_header-Keeps P msg w p) (λ head v q.
        and_then-Keeps P _ (as_udp sender v).1 _ (as_udp-Keeps P sender v q) (λ addr x a.
          elim (Bool-cases (head.main_type == msg_nat_detect)) [
            | inl y ↦ rw y (
                parsed-Keeps P (slice_from header_size msg) json.nat_detect_req _ _
                  (λ req. udp_write-Keeps P stable json addr _ _ _) x a)
            | inr n ↦ rw n a
          ]))

  pub sdwan-Keeps :
      (order : MapOrder) (sender : Sender) (msg : Slice)
      → Keeps P (Sdwan.handle json order sender msg)
  unfolding Sdwan.handle
  sdwan-Keeps order sender msg = entered-Keeps P msg sender _ (λ head ref w p.
      elim (Bool-cases (head.sub_type == sdwan_info_req)) [
        | inl y ↦
            rw y (session-Keeps P ref _ (λ s v e q. write-Keeps P stable json ref _ _ _ v q) w p)
        | inr n ↦ rw n p
      ])

  heartbeat-Keeps : (now ref : ℕ) → Keeps P (heartbeat now ref)
  unfolding heartbeat
  heartbeat-Keeps now ref = session-Keeps P ref _ (λ s w e p.
      write_buff-Keeps P stable ref _ _
        (stable.put ref s (record s { active_time = now }) w e refl refl refl p))

  pub login-Keeps :
      (now : ℕ) (sender : Sender) (msg : Slice) → Keeps P (Login.handle json now sender msg)
  unfolding Login.handle
  login-Keeps now sender msg = entered-Keeps P msg sender _ (λ head ref w p.
      elim (Bool-cases (head.main_type == msg_login)) [
        | inl y ↦
            rw y (parsed-Keeps P (slice_from header_size msg) json.login_rsp _ _ (λ rsp v q. q) w p)
        | inr n ↦ elim (Bool-cases (head.main_type == msg_heartbeat)) [
          | inl y ↦ rw (n, y) (heartbeat-Keeps now ref w p)
          | inr x ↦ rw (n, x) p
        ]
      ])
