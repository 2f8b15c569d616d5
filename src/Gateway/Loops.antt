-- ===== src/Gateway/Loops.antt =====
-- The loops that empty the channels: `writeLoop` of wssession.go, and `dealOne` and `notifyLoop` of
-- notify.go.
use gateway_lite.Protocol.Constants.{msg_push, push_dst_node_online}
use gateway_lite.Store.Data.{values}
use gateway_lite.Gateway.Stable.{IsStable, Keeps, and_then-Keeps, write-Keeps}
use gateway_lite.Protocol.Messages.{Json, Packet, dst_node_online_of}
use gateway_lite.Common.{
  refl, true, [], zero, suc, nat_eq, bytes_eq, Bytes, ℕ, Bool, MapOrder, List, ◌∷◌, ◌≡◌, All,
  if◌then◌else◌, length, arith,
}
use gateway_lite.Gateway.{◌>>◌, done, World, M, Session, pure, write}

-- What the connection took in that many rounds, and the session then. `takes` says what the
-- connection can write. A round ends the loop where the session no longer runs or the write fails,
-- and waits where the channel is empty.
unfoldable pub write_loop : ℕ → (Bytes → Bool) → Session → List Bytes × Session
write_loop zero takes s = ([], s)
write_loop (suc rounds) takes s = elim s.write_ch [
  | [] ↦ ([], s)
  | msg ∷ rest ↦
      let t = record s { write_ch = rest } in
      let next = write_loop rounds takes t in
      if s.running then (if takes msg then (msg ∷ next.0, next.1) else ([], t)) else ([], s)
]

-- A running session whose connection takes every message of its channel has sent all of them, in
-- their order, after as many rounds, and its channel is empty.
pub write_loop-whole :
    (takes : Bytes → Bool) (s : Session) (l : List Bytes)
    → s.running ≡ true
    → All (λ msg. takes msg ≡ true) l
    → write_loop (length l) takes (record s { write_ch = l }) ≡ (l, record s { write_ch = [] })
unfolding write_loop
write_loop-whole takes s [] go a = refl
write_loop-whole takes s (msg ∷ l) go (y, a) =
    let next = write_loop-whole takes s l go a in ground (arith, go, y, next)

unfoldable pub write_each : Json → Packet → List ℕ → M (Unit {0})
write_each json packet [] = pure tt
write_each json packet (ref ∷ refs) = do
  write json ref msg_push push_dst_node_online packet
  write_each json packet refs

-- Every session of the map is told that the node is online. As in writeBuff, a send that waits for
-- room is taken to go through.
unfoldable pub deal_one : Json → MapOrder → Bytes → M (Unit {0})
unfolding write_each
deal_one json order node w =
    write_each json (dst_node_online_of node) (order.visit (values w.all_sessions)) w

unfoldable pub notify_next : Json → MapOrder → List Bytes → M (Unit {0})
notify_next json order [] w = (w, done tt)
notify_next json order (node ∷ nodes) w =
    deal_one json order node (record w { online_nodes = nodes })

-- A round of notifyLoop: the oldest node that waits.
unfoldable pub notify_round : Json → MapOrder → M (Unit {0})
unfolding notify_next
notify_round json order w = notify_next json order w.online_nodes w

module _ (P : World → Type 0) (stable : IsStable P) (json : Json) where
  write_each-Keeps : (packet : Packet) (refs : List ℕ) → Keeps P (write_each json packet refs)
  unfolding write_each
  write_each-Keeps packet [] w p = p
  write_each-Keeps packet (ref ∷ refs) w p =
      and_then-Keeps P _ (write json ref msg_push push_dst_node_online packet w).1 _
        (write-Keeps P stable json ref _ _ packet w p) (λ u. write_each-Keeps packet refs)

  pub notify_round-Keeps : (order : MapOrder) → Keeps P (notify_round json order)
  unfolding notify_round deal_one notify_next
  notify_round-Keeps order w p = next w.online_nodes
    where
      next : (l : List Bytes) → P (notify_next json order l w).0
      next [] = p
      next (node ∷ nodes) = write_each-Keeps _ _ _ (stable.notified nodes w p)
