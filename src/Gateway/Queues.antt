-- ===== src/Gateway/Queues.antt =====
-- What has gone into a session's channel stays there while handlers write.
use gateway_lite.Common.{
  Bool-cases, Bytes, List, Member, Member-append_left, Option-cases, [], arith, bytes_eq, inl, inr,
  lookup, lookup-insert_ne, lookup-insert_self, nat_beq_iff, nat_eq, refl, some, true, ℕ, ◌++◌,
  ◌==◌, ◌∙◌, ◌∷◌, ◌≡◌,
}
use gateway_lite.Protocol.Header.{new_message}
use gateway_lite.Protocol.Messages.{Json, Packet}
use gateway_lite.Gateway.{World, Session, done, session, write_buff, write, put_session}

abbrev pub Queued : Bytes → ℕ → World → Type 0
Queued msg ref w = (s : Session) × (lookup ref w.sessions ≡ some s) × Member msg s.write_ch

-- A session with more in its channel.
abbrev append_to : Session → Bytes → Session
append_to s msg = record s { write_ch = s.write_ch ++ msg ∷ [] }

put_session-Queued :
    (old msg : Bytes) (ref r : ℕ) (s : Session) (w : World)
    → lookup ref w.sessions ≡ some s
    → Queued old r w
    → Queued old r (put_session ref (append_to s msg) w)
put_session-Queued old msg ref r s w e (t, f, m) = elim (Bool-cases (ref == r)) [
  | inr n ↦ (t, lookup-insert_ne ref r _ w.sessions n ∙ f, m)
  | inl y ↦
      let p : ref ≡ r = (nat_beq_iff ref r).0 y in
      let q : s ≡ t = ground arith in
      (
        append_to s msg,
        rw (← p) (lookup-insert_self ref _ w.sessions),
        Member-append_left old s.write_ch (msg ∷ []) (rw q m),
      )
]

write_buff-Queued :
    (old : Bytes) (r ref : ℕ) (msg : Bytes) (w : World)
    → Queued old r w
    → Queued old r (write_buff ref msg w).0
unfolding write_buff session
write_buff-Queued old r ref msg w q = elim (Option-cases (lookup ref w.sessions)) [
  | inl e ↦ rw (e, write_buff) q
  | inr (s, e) ↦ elim (Bool-cases s.running) [
    | inr stop ↦ rw (e, write_buff, stop) q
    | inl go ↦ elim (Bool-cases s.closed) [
      | inl c ↦ rw (e, write_buff, go, c) q
      | inr c ↦
          let p : (write_buff ref msg w).0 ≡ put_session ref (append_to s msg) w = ground arith in
          rw p (put_session-Queued old msg ref r s w e q)
    ]
  ]
]

pub write-Queued :
    (old : Bytes) (r : ℕ) (json : Json) (ref main_type sub_type : ℕ) (packet : Packet) (w : World)
    → Queued old r w
    → Queued old r (write json ref main_type sub_type packet w).0
unfolding write
write-Queued old r json ref main_type sub_type packet w q =
    elim (Option-cases (new_message main_type sub_type (json.marshal packet))) [
      | inl e ↦ rw (e, write) q
      | inr (msg, e) ↦ rw (e, write) (write_buff-Queued old r ref msg w q)
    ]

Member-last : (msg : Bytes) (l : List Bytes) → Member msg (l ++ msg ∷ [])
Member-last msg [] = inl refl
Member-last msg (x ∷ xs) = inr (Member-last msg xs)

-- A write to a running session that ends well is in its channel.
pub write_buff-done :
    (ref : ℕ) (msg : Bytes) (w v : World) (s : Session)
    → write_buff ref msg w ≡ (v, done tt)
    → lookup ref w.sessions ≡ some s
    → s.running ≡ true
    → Queued msg ref v
unfolding write_buff session
write_buff-done ref msg w v s h e go = elim (Bool-cases s.closed) [
  | inl c ↦ absurd (ground arith)
  | inr c ↦
      let p : v ≡ put_session ref (append_to s msg) w = ground arith in
      rw p (append_to s msg, lookup-insert_self ref _ w.sessions, Member-last msg s.write_ch)
]
