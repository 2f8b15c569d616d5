-- ===== src/Handlers/Relay.antt =====
-- relayhandler.go: the choice of a relay node. The failed connections are counted for a log line
-- only. `is_loopback` is net.ParseIP with IsLoopback.
pub mod Choice
use gateway_lite.Common.{
  Bool, Bytes, List, MapOrder, Option, [], bytes_eq, false, if◌then◌else◌, lookup, ltb, map, nat_eq,
  none, not, some, utf8, ℕ, ◌&&◌, ◌*◌, ◌-◌, ◌==◌, ◌||◌, ◌∷◌, Map,
}
use gateway_lite.Common.Int.{ℤ, pos, int_eq}
use gateway_lite.Clock.{Totp, minute, unix}
use gateway_lite.Protocol.Slice.{Slice, slice_from}
use gateway_lite.Protocol.Header.{Header, header_size}
use gateway_lite.Protocol.NodeId.{node_name_to_id}
use gateway_lite.Protocol.Constants.{msg_relay, relay_node_req, relay_node_rsp}
use gateway_lite.Protocol.Messages.{Json, RelayNodeRsp, relay_node_rsp_of}
use gateway_lite.Gateway.{
  World, Session, Sender, M, ◌>>=◌, ◌>>◌, pure, gets, or_fail, or_panic, modify, read_header,
  as_wss, session, put_session, write,
}

-- NATSymmetric
abbrev pub nat_symmetric : ℤ
nat_symmetric = pos 2

-- A session under its reference.
abbrev pub Entry : Type 0
Entry = ℕ × Session

module _ (is_loopback : Bytes → Bool) where
  -- The tests that let a session through the loop's `continue`s.
  unfoldable pub is_usable : Session → ℕ → Bytes → Session → Bool
  is_usable req peer_id peer_ip s =
      if not (req.major_ver == s.major_ver)
      then false
      else if s.node_id == req.node_id || s.node_id == peer_id
      then false
      else if not (s.user == req.user) || s.nat_type == nat_symmetric
      then false
      else not (not (is_loopback s.ipv4) && (s.ipv4 == req.ipv4 || s.ipv4 == peer_ip))

-- The better of the relay so far and one more: the one whose last use is longer ago, the older
-- choice where they are equal.
prefer : Option Entry → Entry → Entry
prefer none e = e
prefer (some r) e = if ltb e.1.relay_time r.1.relay_time then e else r

-- The loop over the sessions: it ends at a usable one that has been idle since before `limit`.
unfoldable pub choose : (Session → Bool) → ℕ → Option Entry → List Entry → Option Entry
unfolding prefer
choose usable limit best [] = best
choose usable limit best (e ∷ es) =
    let skip = choose usable limit best es in
    let rest = choose usable limit (some (prefer best e)) es in
    if usable e.1 then (if ltb e.1.relay_time limit then some (prefer best e) else rest) else skip

-- The sessions that these references stand for.
unfoldable pub deref : Map ℕ Session → List ℕ → List Entry
deref sessions [] = []
deref sessions (ref ∷ refs) =
    let rest = deref sessions refs in
    elim (lookup ref sessions) [ none ↦ rest | some s ↦ (ref, s) ∷ rest ]

-- The sessions of the map, in the order of the loop.
unfoldable pub online : MapOrder → World → List Entry
unfolding deref
online order w = deref w.sessions (order.visit (map (λ p. p.1) w.all_sessions))

abbrev pub idle_time : ℕ
idle_time = 30 * minute

module _ (json : Json) (totp : Totp) (is_loopback : Bytes → Bool) (order : MapOrder) where
  -- The relay's name and its one-time token, and its session used now.
  unfoldable pub reserve : ℕ → Session → Option Entry → M RelayNodeRsp
  reserve now req none = pure (record { mode = utf8 "private"; relay_name = []; relay_token = 0 })
  reserve now req (some (ref, s)) = do
    modify (put_session ref (record s { relay_time = now }))
    pure (record {
      mode = if s.user == req.user then utf8 "private" else utf8 "public";
      relay_name = s.node;
      relay_token = totp.gen s.token (unix now);
    })

  -- What follows when the peer has been looked up: a peer that is not online gets no answer.
  unfoldable pub answer : ℕ → ℕ → ℕ → Option ℕ → M (Unit {0})
  unfolding reserve
  answer now ref peer_id none = pure tt
  answer now ref peer_id (some peer_ref) = do
    req ← session ref
    peer ← session peer_ref
    entries ← gets (online order)
    rsp ←
        reserve now req
          (choose (is_usable is_loopback req peer_id peer.ipv4) (now - idle_time) none entries)
    write json ref msg_relay relay_node_rsp (relay_node_rsp_of rsp)

  unfoldable pub handle : ℕ → Sender → Slice → M (Unit {0})
  handle now sender msg = do
    head ← read_header msg
    ref ← as_wss sender
    if head.sub_type == relay_node_req
        then (do
          body ← or_panic (slice_from header_size msg)
          req ← or_fail (json.relay_node_req body) (utf8 "wrong RelayNodeReq")
          peer ← gets (λ w. lookup (node_name_to_id req.peer_node) w.all_sessions)
          answer now ref (node_name_to_id req.peer_node) peer)
        else pure tt
