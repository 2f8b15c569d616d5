-- ===== src/Handlers/Round.antt =====
-- reporthandler.go, relayhandler.go and a round of the loop in msghandler.go, and the properties of the
-- world that Gateway/Stable describes.
use gateway_lite.Handlers.Relay.Choice.{choose_lem}
use gateway_lite.Protocol.NodeId.{node_name_to_id}
use gateway_lite.Protocol.Constants.{relay_node_req, msg_report, report_basic_rsp}
use gateway_lite.Protocol.Header.{header_size}
use gateway_lite.Handlers.Sound.{push-Keeps, query-Keeps}
use gateway_lite.Handlers.Stable.{entered-Keeps, parsed-Keeps, login-Keeps, sdwan-Keeps, nat-Keeps}
use gateway_lite.Protocol.Slice.{Slice, slice_from}
use gateway_lite.Store.Data.{Disk}
use gateway_lite.Handlers.Report.{answered, basic, connected, count, enrich, device_of}
use gateway_lite.Clock.{Totp}
use gateway_lite.Protocol.Messages.{Json, null}
use gateway_lite.Handlers.Dispatch.{
  Env, dispatch, handler, handle_message, registered, HandlerKind, login_handler, push_handler,
  relay_handler, report_handler, query_handler, sdwan_handler, nat_handler,
}
use gateway_lite.Gateway.Stable.{
  IsStable, Keeps, and_then-Keeps, read_header-Keeps, or_panic-Keeps, session-Keeps, send_rsp-Keeps,
  push_notify_chan-Keeps, write-Keeps,
}
use gateway_lite.Handlers.Relay.{deref, is_usable, Entry, online, reserve, choose, idle_time}
use gateway_lite.Common.{
  refl, none, some, inl, inr, nat_eq, bytes_eq, Map, ℕ, Bytes, List, Bool, MapOrder, Member, arith,
  Bool-cases, lookup, Option, ◌==◌, ◌≡◌, ◌∷◌, Option-cases, [], insert, ◌-◌,
}
use gateway_lite.Gateway.{
  World, Session, Sender, or_panic, read_header, put_session, push_notify_chan, write,
}
use gateway_lite.Store.Calls.{step, upserts}
use gateway_lite.Handlers.Report
use gateway_lite.Handlers.Relay

-- A session of the list stands where its reference says.
pub Member-deref :
    (sessions : Map ℕ Session) (refs : List ℕ) (e : Entry)
    → Member e (deref sessions refs)
    → lookup e.0 sessions ≡ some e.1
unfolding deref
Member-deref sessions [] e h = absurd h
Member-deref sessions (ref ∷ refs) e h = elim (Option-cases (lookup ref sessions)) [
  | inl n ↦ Member-deref sessions refs e (rw (n, deref) at h)
  | inr (s, n) ↦ elim (rw (n, deref) at h) [
    | inl y ↦ rw y n
    | inr m ↦ Member-deref sessions refs e m
  ]
]

module _ (P : World → Type 0) (stable : IsStable P) (json : Json) where
  basic-Keeps :
      (disk : Disk) (stamp : Bytes) (ref : ℕ) (msg : Slice)
      → Keeps P (basic json disk stamp ref msg)
  unfolding basic enrich step
  basic-Keeps disk stamp ref msg =
      parsed-Keeps P (slice_from header_size msg) json.report_basic _ _ (λ req.
        session-Keeps P ref _ (λ s w e p.
          let t = enrich req s in
          let v = put_session ref t w in
          and_then-Keeps P _ (push_notify_chan t.node v).1 _
            (push_notify_chan-Keeps P stable t.node v (stable.put ref s t w e refl refl refl p))
            (λ u x q.
              and_then-Keeps P _ (write json ref msg_report report_basic_rsp null x).1 _
                (write-Keeps P stable json ref _ _ _ x q)
                (λ a y b. stable.store disk stamp (upserts (device_of t stamp)) y b))))

  connected-Keeps : (now ref : ℕ) (msg : Slice) → Keeps P (connected json now ref msg)
  unfolding connected count
  connected-Keeps now ref msg =
      parsed-Keeps P (slice_from header_size msg) json.report_connect _ _ (λ req.
        session-Keeps P ref _ (λ s w e p.
          let v = count req.error w in
          let q : P v = stable.results _ w p in
          elim (Bool-cases (req.error == [])) [
            | inl y ↦ rw y (stable.results _ v q)
            | inr n ↦ rw n (
                stable.put ref s
                  (record s {
                    fail_nodes = insert (node_name_to_id req.peer_node) now s.fail_nodes;
                  })
                  v e refl refl refl q)
          ]))

  answered-Keeps : (ref : ℕ) (msg : Slice) → Keeps P (answered json ref msg)
  unfolding answered
  answered-Keeps ref msg w p =
      and_then-Keeps P _ (or_panic (slice_from header_size msg) w).1 _
        (or_panic-Keeps P (slice_from header_size msg) w p)
        (λ body v q. send_rsp-Keeps P stable ref body v q)

  report-Keeps :
      (disk : Disk) (stamp : Bytes) (now : ℕ) (sender : Sender) (msg : Slice)
      → Keeps P (Report.handle json disk stamp now sender msg)
  unfolding Report.handle
  report-Keeps disk stamp now sender msg = entered-Keeps P msg sender _ (λ head ref w p. ground (
    arith,
    p,
    basic-Keeps disk stamp ref msg w p,
    answered-Keeps ref msg w p,
    connected-Keeps now ref msg w p,
  ))

  module _ (totp : Totp) (is_loopback : Bytes → Bool) (order : MapOrder) where
    pub reserve-Keeps :
        (now : ℕ) (req : Session) (o : Option Entry) (w : World)
        → ((e : Entry) → o ≡ some e → lookup e.0 w.sessions ≡ some e.1)
        → P w
        → P (reserve json totp is_loopback order now req o w).0
    unfolding reserve
    reserve-Keeps now req none w h p = p
    reserve-Keeps now req (some (ref, s)) w h p =
        stable.put ref s (record s { relay_time = now }) w (h (ref, s) refl) refl refl refl p

    -- What is chosen is a session of the map.
    relay_answer-Keeps :
        (now ref peer_id : ℕ) (o : Option ℕ)
        → Keeps P (Relay.answer json totp is_loopback order now ref peer_id o)
    unfolding Relay.answer online
    relay_answer-Keeps now ref peer_id none w p = p
    relay_answer-Keeps now ref peer_id (some peer_ref) w p =
        session-Keeps P ref _
          (λ req v e q.
            session-Keeps P peer_ref _
              (λ peer x f a.
                let es = online order x in
                let usable = is_usable is_loopback req peer_id peer.ipv4 in
                let o = choose usable (now - idle_time) none es in
                let found = choose_lem is_loopback req peer_id peer.ipv4 (now - idle_time) es in
                and_then-Keeps P _ (reserve json totp is_loopback order now req o x).1 _
                  (reserve-Keeps now req o x (λ r h. Member-deref x.sessions _ r (found.0 r h).0) a)
                  (λ rsp y b. write-Keeps P stable json ref _ _ _ y b))
              v q)
          w p

    relay-Keeps :
        (now : ℕ) (sender : Sender) (msg : Slice)
        → Keeps P (Relay.handle json totp is_loopback order now sender msg)
    unfolding Relay.handle
    relay-Keeps now sender msg = entered-Keeps P msg sender _ (λ head ref w p.
        elim (Bool-cases (head.sub_type == relay_node_req)) [
          | inl y ↦ rw y (
              parsed-Keeps P (slice_from header_size msg) json.relay_node_req _ _
                (λ req v q. relay_answer-Keeps now ref _ _ v q) w p)
          | inr n ↦ rw n p
        ])

module _ (P : World → Type 0) (stable : IsStable P) (env : Env) where
  handle_message-Keeps :
      (hi : HandlerKind) (sender : Sender) (msg : Slice)
      → Keeps P (handle_message env hi sender msg)
  unfolding handle_message
  handle_message-Keeps login_handler = login-Keeps P stable env.json env.now
  handle_message-Keeps push_handler = push-Keeps P stable env.json env.totp env.now
  handle_message-Keeps relay_handler =
      relay-Keeps P stable env.json env.totp env.is_loopback env.order env.now
  handle_message-Keeps report_handler = report-Keeps P stable env.json env.disk env.stamp env.now
  handle_message-Keeps query_handler = query-Keeps P stable env.json env.totp env.now
  handle_message-Keeps sdwan_handler = sdwan-Keeps P stable env.json env.order
  handle_message-Keeps nat_handler = nat-Keeps P stable env.json

  handler-Keeps :
      (main_type : ℕ) (sender : Sender) (msg : Slice) → Keeps P (handler env main_type sender msg)
  unfolding handler
  handler-Keeps main_type sender msg w p = elim (Option-cases (lookup main_type registered)) [
    | inl e ↦ rw (e, handler) p
    | inr (hi, e) ↦ rw (e, handler) (handle_message-Keeps hi sender msg w p)
  ]

  pub dispatch-Keeps : (sender : Sender) (msg : Slice) → Keeps P (dispatch env sender msg)
  unfolding dispatch
  dispatch-Keeps sender msg w p =
      and_then-Keeps P _ (read_header msg w).1 (λ head. handler env head.main_type sender msg)
        (read_header-Keeps P msg w p) (λ head. handler-Keeps head.main_type sender msg)
