-- ===== src/Goroutines/Workers/Full.antt =====
-- The channel for the answers of a session, `rspCh` of wssession.go, when it is full, beside what
-- happens to the gateway other than messages.
use gateway_lite.Common.Strconv.{parse_uint}
use gateway_lite.Protocol.Constants.{msg_push, msg_login, push_dst_node_online}
use gateway_lite.Clock.{unix}
use gateway_lite.Common.Int.{pos}
use gateway_lite.Protocol.Header.{new_message}
use gateway_lite.Store.Data.{Disk}
use gateway_lite.Protocol.Messages.{Json, Packet, login_rsp_of}
use gateway_lite.Common.{
  refl, some, true, false, inl, inr, [], nat_eq, bytes_eq, ℕ, Bytes, Option-cases, lookup,
  Bool-cases, MapOrder, ◌==◌, ◌≡◌, List, length, lookup-insert_ne, ltb, ◌++◌, ◌∙◌, ◌∷◌, arith,
  nat_beq_iff, lookup-insert_self,
}
use gateway_lite.Gateway.{World, Session, session, write_buff, put_session, write, rsp_ch_size}
use gateway_lite.Gateway.Loops.{deal_one, write_each, notify_round, notify_next}
use gateway_lite.Gateway.Stable.{and_then-Keeps, Keeps}
use gateway_lite.Gateway.Connection.{
  enter, open_session, handle_login, read_error, new_session, fresh_ref, Config, LoginReq,
  min_node_name_len, owner_of,
}
use gateway_lite.Gateway.Connection.Life.{fresh_ref-none}

-- The channel is full.
pub record IsFull (ref : ℕ) (w : World) : Type 0 where
  pub sess : Session
  pub stored : lookup ref w.sessions ≡ some sess
  pub full : length sess.rsp_ch ≡ rsp_ch_size

-- A session in the place of one with the same answers.
put_session-IsFull :
    (ref r : ℕ) (s t : Session) (w : World)
    → lookup r w.sessions ≡ some s
    → t.rsp_ch ≡ s.rsp_ch
    → IsFull ref w
    → IsFull ref (put_session r t w)
put_session-IsFull ref r s t w e same f = elim (Bool-cases (r == ref)) [
  | inr n ↦ record {
    sess = f.sess;
    stored = lookup-insert_ne r ref t w.sessions n ∙ f.stored;
    full = f.full;
  }
  | inl y ↦
      let p : r ≡ ref = (nat_beq_iff r ref).0 y in
      let q : s ≡ f.sess = ground (arith, f.stored) in
      record {
        sess = t;
        stored = rw (← p) (lookup-insert_self r t w.sessions);
        full = rw (same, q) f.full;
      }
]

module _ (ref : ℕ) where
  write_buff-IsFull : (r : ℕ) (msg : Bytes) → Keeps (IsFull ref) (write_buff r msg)
  unfolding write_buff session
  write_buff-IsFull r msg w f = elim (Option-cases (lookup r w.sessions)) [
    | inl e ↦ rw (e, write_buff) f
    | inr (s, e) ↦ elim (Bool-cases s.running) [
      | inr stop ↦ rw (e, write_buff, stop) f
      | inl go ↦ elim (Bool-cases s.closed) [
        | inl c ↦ rw (e, write_buff, go, c) f
        | inr c ↦
            let t = record s { write_ch = s.write_ch ++ msg ∷ [] } in
            let p : (write_buff r msg w).0 ≡ put_session r t w = ground arith in
            rw p (put_session-IsFull ref r s t w e refl f)
      ]
    ]
  ]

  write-IsFull :
      (json : Json) (r main_type sub_type : ℕ) (packet : Packet)
      → Keeps (IsFull ref) (write json r main_type sub_type packet)
  unfolding write
  write-IsFull json r main_type sub_type packet w f =
      elim (Option-cases (new_message main_type sub_type (json.marshal packet))) [
        | inl e ↦ rw (e, write) f
        | inr (msg, e) ↦ rw (e, write) (write_buff-IsFull r msg w f)
      ]

  write_each-IsFull :
      (json : Json) (packet : Packet) (refs : List ℕ)
      → Keeps (IsFull ref) (write_each json packet refs)
  unfolding write_each
  write_each-IsFull json packet [] w f = f
  write_each-IsFull json packet (r ∷ refs) w f =
      and_then-Keeps (IsFull ref) _ (write json r msg_push push_dst_node_online packet w).1 _
        (write-IsFull json r msg_push push_dst_node_online packet w f)
        (λ u. write_each-IsFull json packet refs)

  pub notify_round-IsFull :
      (json : Json) (order : MapOrder) → Keeps (IsFull ref) (notify_round json order)
  unfolding notify_round deal_one notify_next
  notify_round-IsFull json order w f = next w.online_nodes
    where
      next : (l : List Bytes) → IsFull ref (notify_next json order l w).0
      next [] = f
      next (node ∷ nodes) =
          write_each-IsFull json _ _ _ (record { sess = f.sess; stored = f.stored; full = f.full })

  pub read_error-IsFull : (r : ℕ) → Keeps (IsFull ref) (read_error r)
  unfolding read_error session
  read_error-IsFull r w f = elim (Option-cases (lookup r w.sessions)) [
    | inl e ↦ rw (e, read_error) f
    | inr (s, e) ↦
        let g =
          put_session-IsFull ref r s (record s { running = false; closed = true }) w e refl f in
        rw (e, read_error) (record { sess = g.sess; stored = g.stored; full = g.full })
  ]

  -- A new session takes a reference that no session has.
  enter-IsFull :
      (disk : Disk) (stamp : Bytes) (s : Session) (w : World)
      → IsFull ref w
      → IsFull ref (enter disk stamp (fresh_ref w.sessions) s w)
  unfolding enter
  enter-IsFull disk stamp s w f =
      let other : (fresh_ref w.sessions == ref) ≡ false =
        ground
          (arith, nat_beq_iff (fresh_ref w.sessions) ref, fresh_ref-none w.sessions, f.stored) in
      record {
        sess = f.sess;
        stored = lookup-insert_ne (fresh_ref w.sessions) ref s w.sessions other ∙ f.stored;
        full = f.full;
      }

  open_session-IsFull :
      (config : Config) (disk : Disk) (stamp : Bytes) (now : ℕ) (req : LoginReq) (user : Bytes)
      → Keeps (IsFull ref) (open_session config disk stamp now req user)
  unfolding open_session
  open_session-IsFull config disk stamp now req user w f =
      let s = new_session now req user in
      let v = enter disk stamp (fresh_ref w.sessions) s w in
      let rsp = login_rsp_of (record {
        error = pos 0;
        detail = [];
        user = user;
        node = s.node;
        token = s.token;
        ts = pos (unix now);
      }) in
      and_then-Keeps (IsFull ref) _ (write config.json (fresh_ref w.sessions) msg_login 0 rsp v).1 _
        (write-IsFull config.json (fresh_ref w.sessions) msg_login 0 rsp v
          (enter-IsFull disk stamp s w f))
        (λ u x q. q)

  pub handle_login-IsFull :
      (config : Config) (disk : Disk) (stamp : Bytes) (now : ℕ) (req : LoginReq)
      → Keeps (IsFull ref) (handle_login config disk stamp now req)
  unfolding handle_login
  handle_login-IsFull config disk stamp now req w f =
      elim (Bool-cases (ltb (length req.node) min_node_name_len)) [
        | inl y ↦ rw (y, handle_login) f
        | inr n ↦ elim (Option-cases (owner_of config w (parse_uint 64 req.token))) [
          | inl e ↦ rw (n, e, handle_login) f
          | inr (user, e) ↦
              rw (n, e, handle_login) (open_session-IsFull config disk stamp now req user w f)
        ]
      ]
