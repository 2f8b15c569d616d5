-- ===== src/Gateway/Connection/Life.antt =====
-- The session map over logins and ends of sessions.
use gateway_lite.Store.Data.{Disk}
use gateway_lite.Common.{
  Bool-cases, Bytes, Map, Option-cases, [], arith, beq_false, bytes_eq, delete, false, inl, inr,
  insert, length, lookup, lookup-delete, lookup-insert, lookup-insert_ne, lookup-insert_self, ltb,
  nat_beq_iff, nat_eq, ne_of_beq, none, not, refl, some, sym, true, ℕ, ◌++◌, ◌<◌, ◌==◌, ◌∙◌, ◌∷◌,
  ◌≡◌, ◌≢◌, ◌⊎◌,
}
use gateway_lite.Protocol.Header.{new_message}
use gateway_lite.Protocol.Messages.{Json, Packet, login_rsp_of}
use gateway_lite.Common.Int.{pos}
use gateway_lite.Common.Strconv.{parse_uint}
use gateway_lite.Clock.{unix}
use gateway_lite.Protocol.Constants.{msg_login}
use gateway_lite.Gateway.{
  World, Session, Outcome, done, failed, panicked, blocked, pure, and_then, session, put_session,
  write, write_buff,
}
use gateway_lite.Gateway.Connection.{
  LoginReq, Config, accepted, fresh_ref, new_session, enter, open_session, handle_login, owner_of,
  remove_session, read_error, min_node_name_len,
}

-- Every node of the session map has a running session with its number, and a session's channel is
-- closed exactly when it no longer runs.
pub record IsLive (w : World) : Type 0 where
  pub entries :
      (id ref : ℕ)
      → lookup id w.all_sessions ≡ some ref
      → (s : Session) × (lookup ref w.sessions ≡ some s) × (s.node_id ≡ id) × (s.running ≡ true)
  pub channels : (ref : ℕ) (s : Session) → lookup ref w.sessions ≡ some s → s.closed ≡ not s.running

fresh_ref-lt :
    (m : Map ℕ Session) (ref : ℕ) (s : Session) → lookup ref m ≡ some s → ref < fresh_ref m
unfolding fresh_ref
fresh_ref-lt [] ref s h = cc
fresh_ref-lt ((r, t) ∷ m) ref s h = ground (arith, fresh_ref-lt m ref s)

pub fresh_ref-none : (m : Map ℕ Session) → lookup (fresh_ref m) m ≡ none
fresh_ref-none m = elim (Option-cases (lookup (fresh_ref m) m)) [
  | inl e ↦ e
  | inr (s, e) ↦ absurd (omega (arith, fresh_ref-lt m (fresh_ref m) s e))
]

pub lookup-insert_cases :
    {V : Type 0} (ref k : ℕ) (t u : V) (m : Map ℕ V)
    → lookup k (insert ref t m) ≡ some u
    → ((ref ≡ k) × (t ≡ u)) ⊎ ((ref ≢ k) × (lookup k m ≡ some u))
lookup-insert_cases ref k t u m h = elim (Bool-cases (ref == k)) [
  | inl y ↦
      let p : ref ≡ k = (nat_beq_iff ref k).0 y in
      let q : some t ≡ some u = rw (lookup-insert ref k t m, y) at h in inl (p, ground arith)
  | inr n ↦ inr (ne_of_beq ref k n, rw (lookup-insert ref k t m, n) at h)
]

-- A session that changes in neither its number nor its two flags.
pub put_session-IsLive :
    (ref : ℕ) (s t : Session) (w : World)
    → lookup ref w.sessions ≡ some s
    → t.node_id ≡ s.node_id
    → t.running ≡ s.running
    → t.closed ≡ s.closed
    → IsLive w
    → IsLive (put_session ref t w)
put_session-IsLive ref s t w e n r c live = record {
  entries = λ id k h.
      let a = live.entries id k h in
      elim (Bool-cases (ref == k)) [
        | inl y ↦
            let p : ref ≡ k = (nat_beq_iff ref k).0 y in
            let q : s ≡ a.0 = ground (arith, e, a.1, p) in
            (t, rw (← p) (lookup-insert_self ref t w.sessions), n ∙ rw q a.2, r ∙ rw q a.3)
        | inr d ↦ (a.0, lookup-insert_ne ref k t w.sessions d ∙ a.1, a.2, a.3)
      ];
  channels = λ k u h. elim (lookup-insert_cases ref k t u w.sessions h) [
    | inl (p, q) ↦ rw (← q, r, c) (live.channels ref s e)
    | inr (d, q) ↦ live.channels k u q
  ];
}

pub enter-IsLive :
    (disk : Disk) (stamp : Bytes) (ref : ℕ) (s : Session) (w : World)
    → lookup ref w.sessions ≡ none
    → s.running ≡ true
    → s.closed ≡ false
    → IsLive w
    → IsLive (enter disk stamp ref s w)
unfolding enter
enter-IsLive disk stamp ref s w fresh r c live = record {
  entries = λ id k h. elim (lookup-insert_cases s.node_id id ref k w.all_sessions h) [
    | inl (p, q) ↦ (s, rw (← q) (lookup-insert_self ref s w.sessions), p, r)
    | inr (d, q) ↦
        let a = live.entries id k q in
        let other : ref ≢ k = λ o. cc (fresh, o, a.1) in
        (a.0, lookup-insert_ne ref k s w.sessions (beq_false ref k other) ∙ a.1, a.2, a.3)
  ];
  channels = λ k u h. elim (lookup-insert_cases ref k s u w.sessions h) [
    | inl (p, q) ↦ rw (← q, r, c) refl
    | inr (d, q) ↦ live.channels k u q
  ];
}

remove_session-some :
    (id n ref r : ℕ) (m : Map ℕ ℕ)
    → lookup id (remove_session n ref m) ≡ some r
    → (lookup id m ≡ some r) × (id ≡ n → r ≢ ref)
unfolding remove_session
remove_session-some id n ref r m h = elim (Option-cases (lookup n m)) [
  | inl e ↦ let g : lookup id m ≡ some r = ground (arith, h, e) in (g, λ i. absurd (cc (g, e, i)))
  | inr (k, e) ↦ elim (Bool-cases (k == ref)) [
    | inl y ↦
        let g : lookup id (delete n m) ≡ some r = ground (arith, h, e, y) in
        elim (Bool-cases (n == id)) [
          | inl z ↦ absurd (cc (rw (lookup-delete n id m, z) at g))
          | inr z ↦ (rw (lookup-delete n id m, z) at g, λ i. absurd (ne_of_beq n id z (sym i)))
        ]
    | inr d ↦
        let g : lookup id m ≡ some r = ground (arith, h, e, d) in
        (g, λ i o. ne_of_beq k ref d (ground (arith, g, e, i, o)))
  ]
]

pub write_buff-IsLive :
    (ref : ℕ) (msg : Bytes) (w : World) → IsLive w → IsLive (write_buff ref msg w).0
unfolding write_buff session
write_buff-IsLive ref msg w live = elim (Option-cases (lookup ref w.sessions)) [
  | inl e ↦ rw (e, write_buff) live
  | inr (s, e) ↦ elim (Bool-cases s.running) [
    | inr stop ↦ rw (e, write_buff, stop) live
    | inl go ↦ elim (Bool-cases s.closed) [
      | inl c ↦ rw (e, write_buff, go, c) live
      | inr c ↦
          let t = record s { write_ch = s.write_ch ++ msg ∷ [] } in
          let p : (write_buff ref msg w).0 ≡ put_session ref t w = ground arith in
          rw p (put_session-IsLive ref s t w e refl refl refl live)
    ]
  ]
]

write-IsLive :
    (json : Json) (ref main_type sub_type : ℕ) (packet : Packet) (w : World)
    → IsLive w
    → IsLive (write json ref main_type sub_type packet w).0
unfolding write
write-IsLive json ref main_type sub_type packet w live =
    elim (Option-cases (new_message main_type sub_type (json.marshal packet))) [
      | inl e ↦ rw (e, write) live
      | inr (msg, e) ↦ rw (e, write) (write_buff-IsLive ref msg w live)
    ]

pub read_error-IsLive : (ref : ℕ) (w : World) → IsLive w → IsLive (read_error ref w).0
unfolding read_error session
read_error-IsLive ref w live = elim (Option-cases (lookup ref w.sessions)) [
  | inl e ↦ rw (e, read_error) live
  | inr (s, e) ↦
      rw (e, read_error)
        (record {
          entries = λ id k h.
              let g = remove_session-some id s.node_id ref k w.all_sessions h in
              let a = live.entries id k g.0 in
              let other : ref ≢ k =
                λ o. let q : s ≡ a.0 = ground (arith, e, a.1, o) in g.1 (sym (rw q a.2)) (sym o) in
              (a.0, lookup-insert_ne ref k _ w.sessions (beq_false ref k other) ∙ a.1, a.2, a.3);
          channels = λ k u h. elim (lookup-insert_cases ref k _ u w.sessions h) [
            | inl (p, q) ↦ rw (← q) refl
            | inr (d, q) ↦ live.channels k u q
          ];
        })
]

and_then-pure :
    {A B : Type 0} (w : World) (o : Outcome A) (b : B) → (and_then w o (λ _. pure b)).0 ≡ w
and_then-pure w (done a) b = refl
and_then-pure w (failed e) b = refl
and_then-pure w panicked b = refl
and_then-pure w blocked b = refl

open_session-IsLive :
    (env : Config) (disk : Disk) (stamp : Bytes) (now : ℕ) (req : LoginReq) (user : Bytes)
    (w : World)
    → IsLive w
    → IsLive (open_session env disk stamp now req user w).0
unfolding open_session new_session
open_session-IsLive env disk stamp now req user w live =
    let s = new_session now req user in
    let ref = fresh_ref w.sessions in
    let entered = enter-IsLive disk stamp ref s w (fresh_ref-none w.sessions) refl refl live in
    let rsp = login_rsp_of (record {
      error = pos 0;
      detail = [];
      user = user;
      node = s.node;
      token = s.token;
      ts = pos (unix now);
    }) in
    let sent = write-IsLive env.json ref msg_login 0 rsp (enter disk stamp ref s w) entered in
    rw
      (and_then-pure (write env.json ref msg_login 0 rsp (enter disk stamp ref s w)).0 _
        (accepted ref))
      sent

pub handle_login-IsLive :
    (env : Config) (disk : Disk) (stamp : Bytes) (now : ℕ) (req : LoginReq) (w : World)
    → IsLive w
    → IsLive (handle_login env disk stamp now req w).0
unfolding handle_login
handle_login-IsLive env disk stamp now req w live =
    elim (Bool-cases (ltb (length req.node) min_node_name_len)) [
      | inl y ↦ rw (y, handle_login) live
      | inr n ↦ elim (Option-cases (owner_of env w (parse_uint 64 req.token))) [
        | inl e ↦ rw (n, e, handle_login) live
        | inr (user, e) ↦
            rw (n, e, handle_login) (open_session-IsLive env disk stamp now req user w live)
      ]
    ]
