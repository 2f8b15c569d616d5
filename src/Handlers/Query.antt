-- ===== src/Handlers/Query.antt =====
-- queryhandler.go: what a node may learn of a peer.
pub mod Window
use gateway_lite.Common.{
  Option, [], bytes_eq, if◌then◌else◌, lookup, nat_eq, none, some, utf8, ℕ, ◌+◌, ◌==◌,
}
use gateway_lite.Common.Int.{pos}
use gateway_lite.Clock.{Totp, minute, unix}
use gateway_lite.Protocol.Slice.{Slice, slice_from}
use gateway_lite.Protocol.Header.{Header, header_size}
use gateway_lite.Protocol.NodeId.{node_name_to_id}
use gateway_lite.Protocol.Constants.{query_peer_info_req, query_peer_info_rsp}
use gateway_lite.Protocol.Messages.{
  Json, QueryPeerInfoReq, QueryPeerInfoRsp, query_peer_info_rsp_of,
}
use gateway_lite.Gateway.{
  Session, Sender, M, ◌>>=◌, ◌>>◌, pure, fail, or_fail, or_panic, gets, modify, read_header, as_wss,
  session, write,
}
use gateway_lite.Handlers.Push.{permit}

abbrev pub offline : QueryPeerInfoRsp
offline = record {
  online = pos 0;
  version = [];
  nat_type = pos 0;
  ipv4 = [];
  lan_ip = [];
  has_ipv4 = pos 0;
  ipv6 = [];
  has_upnp_or_natpmp = pos 0;
}

-- The answer on a peer that is online: its IPv6 address goes only to who knows its token.
unfoldable pub peer_info : QueryPeerInfoReq → Session → QueryPeerInfoRsp
peer_info req to_sess = record {
  online = pos 1;
  version = to_sess.version;
  nat_type = to_sess.nat_type;
  ipv4 = to_sess.ipv4;
  lan_ip = to_sess.lan_ip;
  has_ipv4 = to_sess.has_ipv4;
  ipv6 = if req.token == to_sess.token then to_sess.ipv6 else [];
  has_upnp_or_natpmp = to_sess.has_upnp_or_natpmp;
}

module _ (json : Json) (totp : Totp) where
  -- With the one-time token of the peer, the two nodes may push to each other for a minute.
  unfoldable pub admit : ℕ → ℕ → Header → QueryPeerInfoReq → Session → Session → M (Unit {0})
  admit now ref head req to_sess sess =
      if totp.verify req.token to_sess.token (unix now)
      then (do
        modify (
            permit sess.node_id
              (record { to = node_name_to_id req.peer_node; expired_at = now + minute }))
        modify (
            permit (node_name_to_id req.peer_node)
              (record { to = sess.node_id; expired_at = now + minute }))
        write json ref head.main_type query_peer_info_rsp
            (query_peer_info_rsp_of (peer_info req to_sess)))
      else fail (utf8 "push denied")

  -- What follows when the peer has been looked up.
  unfoldable pub answer : ℕ → ℕ → Header → QueryPeerInfoReq → Option ℕ → M (Unit {0})
  answer now ref head req none =
      write json ref head.main_type query_peer_info_rsp (query_peer_info_rsp_of offline)
  answer now ref head req (some to_ref) = do
    to_sess ← session to_ref
    sess ← session ref
    admit now ref head req to_sess sess

  unfoldable pub handle : ℕ → Sender → Slice → M (Unit {0})
  handle now sender msg = do
    head ← read_header msg
    ref ← as_wss sender
    if head.sub_type == query_peer_info_req
        then (do
          body ← or_panic (slice_from header_size msg)
          req ← or_fail (json.query_peer_info_req body) (utf8 "wrong MsgQueryPeerInfoReq")
          peer ← gets (λ w. lookup (node_name_to_id req.peer_node) w.all_sessions)
          answer now ref head req peer)
        else pure tt
