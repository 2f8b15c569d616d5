-- ===== src/Handlers/Query/Window.antt =====
-- Who may push after a query.
use gateway_lite.Common.{
  Bool-cases, ap, arith, bytes_eq, inl, inr, lookup, nat_eq, some, true, ℕ, ◌+◌, ◌<◌, ◌↔◌, ◌≡◌, ◌⊎◌,
}
use gateway_lite.Clock.{Totp, minute, unix}
use gateway_lite.Protocol.Header.{Header, PushHeader}
use gateway_lite.Protocol.NodeId.{node_name_to_id}
use gateway_lite.Protocol.Constants.{query_peer_info_rsp}
use gateway_lite.Protocol.Messages.{Json, QueryPeerInfoReq, query_peer_info_rsp_of}
use gateway_lite.Gateway.{World, Session, Outcome, done, session, write}
use gateway_lite.Gateway.Actions.{read_then-done, session-same, write-Writes}
use gateway_lite.Handlers.Push.{check_permission, permit}
use gateway_lite.Handlers.Push.Permission.{permit_both, check_permission-done}
use gateway_lite.Handlers.Query.{admit, answer, peer_info}

module _ (json : Json) (totp : Totp) where
  session-done :
      (ref : ℕ) (w : World) (s : Session)
      → session ref w ≡ (w, done s)
      → lookup ref w.sessions ≡ some s
  unfolding session
  session-done ref w s h = ground arith

  -- The two permissions of an answer, whichever world they are given in.
  granted-window :
      (id peer_id till t ref : ℕ) (later : Header) (next : PushHeader) (w v : World)
      → v.push_permission
        ≡ (permit peer_id
            (record { to = id; expired_at = till })
            (permit id (record { to = peer_id; expired_at = till }) w)).push_permission
      → (next.from ≡ id) ⊎ (next.from ≡ peer_id)
      → ((check_permission json totp t ref later next v).1 ≡ done tt) ↔ (t < till)
  granted-window id peer_id till t ref later next w v e k =
      let p = permit_both json totp (record { from = id; to = peer_id }) next.from till w k in
      let f : lookup next.from v.push_permission ≡ some p.0 = rw e p.1 in
      let c = check_permission-done json totp t ref later next v in
      (λ d. let q = c.0 d in ground (arith, f, q.1, q.2, p.2), λ l. c.1 (p.0, f, rw p.2 l))

  admit-done :
      (now ref : ℕ) (head : Header) (req : QueryPeerInfoReq) (to_sess sess : Session) (w v : World)
      → admit json totp now ref head req to_sess sess w ≡ (v, done tt)
      → (totp.verify req.token to_sess.token (unix now) ≡ true)
        × (v.push_permission
            ≡ (permit
                (node_name_to_id req.peer_node)
                (record { to = sess.node_id; expired_at = now + minute })
                (permit sess.node_id
                  (record { to = node_name_to_id req.peer_node; expired_at = now + minute })
                  w)).push_permission)
  unfolding admit
  admit-done now ref head req to_sess sess w v h =
      elim (Bool-cases (totp.verify req.token to_sess.token (unix now))) [
        | inr n ↦ absurd (ground arith)
        | inl y ↦
            let u =
              permit (node_name_to_id req.peer_node)
                (record { to = sess.node_id; expired_at = now + minute })
                (permit sess.node_id
                  (record { to = node_name_to_id req.peer_node; expired_at = now + minute }) w) in
            let rsp = query_peer_info_rsp_of (peer_info req to_sess) in
            let x = write-Writes json ref head.main_type query_peer_info_rsp rsp u in
            let k : write json ref head.main_type query_peer_info_rsp rsp u ≡ (v, done tt) =
              rw y at h in
            (y, rw (ap (λ (r : World × Outcome Unit). r.0) k) at x.push_permission)
      ]

  -- A query on a peer that is online and ends well came with the peer's one-time token, and lets the
  -- node and the peer push, to any node, until a minute after it and not from then on.
  pub answer-window :
      (now ref to_ref : ℕ) (head : Header) (req : QueryPeerInfoReq) (w v : World)
      → answer json totp now ref head req (some to_ref) w ≡ (v, done tt)
      → (sess : Session) × (to_sess : Session) × (lookup ref w.sessions ≡ some sess)
        × (lookup to_ref w.sessions ≡ some to_sess)
        × (totp.verify req.token to_sess.token (unix now) ≡ true)
        × ((t later_ref : ℕ)
            → (later : Header) → (next : PushHeader)
            → (next.from ≡ sess.node_id) ⊎ (next.from ≡ node_name_to_id req.peer_node)
            → ((check_permission json totp t later_ref later next v).1 ≡ done tt)
              ↔ (t < now + minute))
  unfolding answer
  answer-window now ref to_ref head req w v h =
      let a = read_then-done (session to_ref) _ w (session-same to_ref w) h in
      let b = read_then-done (session ref) _ w (session-same ref w) a.2 in
      let d = admit-done now ref head req a.0 b.0 w v b.2 in
      (
        b.0,
        a.0,
        session-done ref w b.0 b.1,
        session-done to_ref w a.0 a.1,
        d.0,
        λ t later_ref later next k.
            granted-window b.0.node_id (node_name_to_id req.peer_node) (now + minute) t later_ref
              later next w v d.1 k,
      )
