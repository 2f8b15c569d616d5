-- ===== src/Gateway/Reach.antt =====
-- What becomes of a message that is written to a node of the session map: `writeBuff` and `writeLoop` of
-- wssession.go.
use gateway_lite.Gateway.Sound.{IsLive-same}
use gateway_lite.Gateway.Connection.History.{write_buff-Queued_live}
use gateway_lite.Gateway.Stable.{IsStable, write_buff-Keeps}
use gateway_lite.Gateway.Connection.Life.{IsLive, put_session-IsLive}
use gateway_lite.Gateway.Loops.{write_loop, write_loop-whole}
use gateway_lite.Common.{
  refl, some, true, [], nat_eq, bytes_eq, Map, Bytes, ℕ, ◌≡◌, Bool, lookup, Member, length,
  Member-All, arith,
}
use gateway_lite.Gateway.{World, Session, write_buff}

-- The map of the sessions, and that it is live.
abbrev Mapped : Map ℕ ℕ → World → Type 0
Mapped m w = IsLive w × (w.all_sessions ≡ m)

Mapped-IsStable : (m : Map ℕ ℕ) → IsStable (Mapped m)
Mapped-IsStable m = record {
  put = λ ref s t w e i r c p. (put_session-IsLive ref s t w e i r c p.0, p.1);
  store = λ disk stamp c w p. (IsLive-same _ w refl refl p.0, p.1);
  permissions = λ l w p. (IsLive-same _ w refl refl p.0, p.1);
  results = λ l w p. (IsLive-same _ w refl refl p.0, p.1);
  notified = λ l w p. (IsLive-same _ w refl refl p.0, p.1);
  datagrams = λ l w p. (IsLive-same _ w refl refl p.0, p.1);
  guarded = λ g w p. (IsLive-same _ w refl refl p.0, p.1);
}

-- Where the session map is live and the connection takes every message, what is written to a node
-- of the map is sent: it is among what the session's write loop sends in as many rounds as its channel
-- has messages.
pub write_buff-sent :
    (w : World) (id ref : ℕ) (msg : Bytes) (takes : Bytes → Bool)
    → IsLive w
    → lookup id w.all_sessions ≡ some ref
    → ((m : Bytes) → takes m ≡ true)
    → (s : Session) × (lookup ref (write_buff ref msg w).0.sessions ≡ some s)
      × Member msg (write_loop (length s.write_ch) takes s).0
write_buff-sent w id ref msg takes live h y =
    let (s, e, m) = (write_buff-Queued_live w id ref msg live h).1 in
    let p = write_buff-Keeps (Mapped w.all_sessions) (Mapped-IsStable _) ref msg w (live, refl) in
    let (t, f, i, go) = p.0.entries id ref (rw p.1 h) in
    let same : t ≡ s = ground (arith, e, f) in
    let sent : write_loop (length s.write_ch) takes s ≡ (s.write_ch, record s { write_ch = [] }) =
      write_loop-whole takes s s.write_ch (rw (← same) go) (Member-All _ s.write_ch (λ a k. y a)) in
    (s, e, rw sent m)
