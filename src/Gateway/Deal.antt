-- ===== src/Gateway/Deal.antt =====
-- What `dealOne` of notify.go leaves in the channels of the sessions.
use gateway_lite.Goroutines.{write_ch_size}
use gateway_lite.Store.Data.{values}
use gateway_lite.Protocol.Constants.{msg_push, push_dst_node_online}
use gateway_lite.Protocol.Header.{new_message}
use gateway_lite.Protocol.Messages.{Json, Packet, dst_node_online_of}
use gateway_lite.Common.{
  refl, some, true, false, inl, inr, [], nat_eq, bytes_eq, Bytes, List, ℕ, lookup, ◌++◌, ◌∷◌, ◌≡◌,
  Member, Member-perm, arith, subst, sym, ◌∙◌, ◌≢◌, lookup-insert_ne, Map, MapOrder, beq_false,
  Bool-cases, IsMap, length, ◌==◌, nat_beq_iff, ◌<◌, lookup-insert_self, ne_of_beq, ◌≤◌,
  Member-lookup, lookup-Member, ap, not, length-append,
}
use mathlib.Core.List.Permᴰ
use mathlib.Core.List.{Permᴰ}
use gateway_lite.Store.Users.Lookup.{Member-values, Member-values_of}
use gateway_lite.Gateway.Loops.{deal_one, write_each}
use gateway_lite.Gateway.Connection.Life.{IsLive}
use gateway_lite.Gateway.{World, Session, done, session, write_buff, write, put_session, Outcome}

-- No element stands in the list twice.
abbrev Distinct : List ℕ → Type 0
Distinct [] = Unit {0}
Distinct (x ∷ xs) = (¬ Member x xs) × Distinct xs

Distinct-perm : {l m : List ℕ} → Permᴰ l m → Distinct l → Distinct m
Distinct-perm Permᴰ.nil d = d
Distinct-perm (Permᴰ.cons {a} {b} {l₁} {l₂} e p) (n, d) =
    (λ h. n (Member-perm a (Permᴰ.symm p) (subst (λ x. Member x l₂) (sym e) h)), Distinct-perm p d)
Distinct-perm (Permᴰ.swap {a} {b} {a'} {b'} {l} e f) (n, (m, d)) = (
  λ h. elim h [
    | inl x ↦ n (inl (e ∙ sym x ∙ sym f))
    | inr x ↦ m (subst (λ y. Member y l) (sym f) x)
  ],
  (λ h. n (inr (subst (λ y. Member y l) (sym e) h)), d),
)
Distinct-perm (Permᴰ.trans p q) d = Distinct-perm q (Distinct-perm p d)

-- The session with one message more in its channel.
abbrev pub with_message : Bytes → Session → Session
with_message msg s = record s { write_ch = s.write_ch ++ msg ∷ [] }

-- A session that takes messages.
record IsOpen (w : World) (ref : ℕ) : Type 0 where
  pub sess : Session
  pub stored : lookup ref w.sessions ≡ some sess
  pub running : sess.running ≡ true
  pub closed : sess.closed ≡ false

write_buff-IsOpen :
    (ref : ℕ) (msg : Bytes) (w : World) (o : IsOpen w ref)
    → write_buff ref msg w ≡ (put_session ref (with_message msg o.sess) w, done tt)
unfolding write_buff session
write_buff-IsOpen ref msg w o = ground (arith, o.stored, o.running, o.closed)

module _ (json : Json) (packet : Packet) (msg : Bytes)
    (framed : new_message msg_push push_dst_node_online (json.marshal packet) ≡ some msg) where
  -- What the writes to these sessions make of the world.
  record Adds (refs : List ℕ) (w v : World) : Type 0 where
    pub added :
        (ref : ℕ) (s : Session)
        → Member ref refs
        → lookup ref w.sessions ≡ some s
        → lookup ref v.sessions ≡ some (with_message msg s)
    pub others : (ref : ℕ) → ¬ Member ref refs → lookup ref v.sessions ≡ lookup ref w.sessions

  write_each-Adds :
      (refs : List ℕ) (w : World)
      → Distinct refs
      → ((ref : ℕ) → Member ref refs → IsOpen w ref)
      → ((write_each json packet refs w).1 ≡ done tt)
        × Adds refs w (write_each json packet refs w).0
  unfolding write_each write
  write_each-Adds [] w d o =
      (refl, record { added = λ ref s m e. absurd m; others = λ ref n. refl })
  write_each-Adds (ref ∷ refs) w (new, d) o =
      let a = o ref (inl refl) in
      let v = put_session ref (with_message msg a.sess) w in
      let apart = λ (r : ℕ) (n : ref ≢ r).
        lookup-insert_ne ref r (with_message msg a.sess) w.sessions (beq_false ref r n) in
      let first : write json ref msg_push push_dst_node_online packet w ≡ (v, done tt) =
        rw (framed, write) (write_buff-IsOpen ref msg w a) in
      let whole : write_each json packet (ref ∷ refs) w ≡ write_each json packet refs v =
        rw first refl in
      let next = write_each-Adds refs v d (λ r m.
        let b = o r (inr m) in
        let n : ref ≢ r = λ e. new (subst (λ x. Member x refs) (sym e) m) in
        record {
          sess = b.sess;
          stored = apart r n ∙ b.stored;
          running = b.running;
          closed = b.closed;
        }) in
      subst (λ o. (o.1 ≡ done tt) × Adds (ref ∷ refs) w o.0) (sym whole)
        (
          next.0,
          record {
            added = λ r s m e. elim (Bool-cases (ref == r)) [
              | inl y ↦
                  let p : ref ≡ r = (nat_beq_iff ref r).0 y in
                  let same : a.sess ≡ s = ground (arith, a.stored, e) in
                  next.1.others r (λ k. new (subst (λ x. Member x refs) (sym p) k))
                  ∙ rw (← p, ← same) (lookup-insert_self ref (with_message msg a.sess) w.sessions)
              | inr n ↦
                  let far = ne_of_beq ref r n in
                  elim m [
                    | inl p ↦ absurd (far (sym p))
                    | inr k ↦ next.1.added r s k (apart r far ∙ e)
                  ]
            ];
            others = λ r n. next.1.others r (λ k. n (inr k)) ∙ apart r (λ e. n (inl (sym e)));
          },
        )

-- No two nodes of a live map have one session.
values-Distinct :
    (m : Map ℕ ℕ)
    → IsMap m
    → ((i j ref : ℕ) → Member (i, ref) m → Member (j, ref) m → i ≡ j)
    → Distinct (values m)
values-Distinct [] d one = tt
values-Distinct ((id, ref) ∷ m) (new, d) one = (
  λ h.
      let (k, e) = Member-values ref m h in
      let same : id ≡ k = one id k ref (inl refl) (inr e) in
      cc (new, same, Member-lookup k ref m d e),
  values-Distinct m d (λ i j r a b. one i j r (inr a) (inr b)),
)

-- A notice has gone through: the session of every node of the map has it as one message more, the last
-- of its channel, which keeps to its ten places, and every other session is as it was.
abbrev pub Deals : Bytes → World → World × Outcome (Unit {0}) → Type 0
Deals msg w o =
    (o.1 ≡ done tt)
    × ((id ref : ℕ)
        → lookup id w.all_sessions ≡ some ref
        → (s : Session) × (lookup ref w.sessions ≡ some s)
          × (lookup ref o.0.sessions ≡ some (with_message msg s))
          × (length (with_message msg s).write_ch ≤ write_ch_size))
    × ((ref : ℕ)
        → ((id : ℕ) → lookup id w.all_sessions ≢ some ref)
        → lookup ref o.0.sessions ≡ lookup ref w.sessions)

-- Where the session map is live and has one entry to a node, the notice is JSON, and the channel of
-- every node of the map has room among its ten places: dealOne goes through, the channel of every
-- node of the map has the notice as one message more, its last, and still keeps to its places, and no
-- other session has changed.
pub deal_one-adds :
    (json : Json) (order : MapOrder) (node msg : Bytes) (w : World)
    → new_message msg_push push_dst_node_online (json.marshal (dst_node_online_of node)) ≡ some msg
    → IsLive w
    → IsMap w.all_sessions
    → ((id ref : ℕ) (s : Session)
        → lookup id w.all_sessions ≡ some ref
        → lookup ref w.sessions ≡ some s
        → length s.write_ch < write_ch_size)
    → Deals msg w (deal_one json order node w)
unfolding deal_one
deal_one-adds json order node msg w framed live d room =
    let refs = order.visit (values w.all_sessions) in
    let perm = order.visit_perm (values w.all_sessions) in
    let known = λ (ref : ℕ) (k : Member ref refs).
      let f = Member-values ref w.all_sessions (Member-perm ref perm k) in
      Member-lookup f.0 ref w.all_sessions d f.1 in
    let node_of = λ (id ref : ℕ) (m : Member (id, ref) w.all_sessions).
      live.entries id ref (Member-lookup id ref w.all_sessions d m) in
    let own =
      λ (i j ref : ℕ) (a : Member (i, ref) w.all_sessions) (b : Member (j, ref) w.all_sessions).
        let (s, e, p, go) = node_of i ref a in
        let (t, f, q, on) = node_of j ref b in
        let same : s ≡ t = ground (arith, e, f) in
        sym p ∙ ap (λ (x : Session). x.node_id) same ∙ q in
    let takes : (ref : ℕ) → Member ref refs → IsOpen w ref = λ ref k.
      let (s, e, p, go) = live.entries _ ref (known ref k) in
      record { sess = s; stored = e; running = go; closed = live.channels ref s e ∙ ap not go } in
    let all =
      write_each-Adds json (dst_node_online_of node) msg framed refs w
        (Distinct-perm (Permᴰ.symm perm) (values-Distinct w.all_sessions d own)) takes in
    (
      all.0,
      λ id ref h.
          let (s, e, i, go) = live.entries id ref h in
          let k =
            Member-perm ref (Permᴰ.symm perm)
              (Member-values_of id ref w.all_sessions (lookup-Member id ref w.all_sessions h)) in
          (
            s,
            e,
            all.1.added ref s k e,
            omega (arith, length-append s.write_ch (msg ∷ []), room id ref s h e),
          ),
      λ ref n. all.1.others ref (λ k. n _ (known ref k)),
    )
