-- ===== src/Goroutines/Stall.antt =====
-- A session whose write loop has ended on a failed write, while its read loop goes on: the channel
-- of wssession.go then has no reader.
use gateway_lite.Goroutines.{
  Line, Reach, Step, closed, ended, loops, Panics, goes_on, leaves, next, write_ch_size, here,
  receives, finds_closed, writes, fails, writers, ending, enters, sends, stops_running, closes,
}
use gateway_lite.Common.{
  refl, inl, inr, [], nat_eq, bytes_eq, Bytes, List, Member, ◌≡◌, ◌++◌, length, ◌∷◌, ◌⊎◌, arith,
}

-- A write loop that has ended, a full channel, and a writer that waits for room.
pub record IsStuck (msg : Bytes) (s : Line) : Type 0 where
  pub no_reader : s.write_pc ≡ ended
  pub full : length s.write_ch ≡ write_ch_size
  pub waits : Member msg s.pending

Member-other :
    (a b : Bytes) (before after : List Bytes)
    → Member a (before ++ b ∷ after)
    → (a ≡ b) ⊎ Member a (before ++ after)
Member-other a b [] after m = m
Member-other a b (x ∷ before) after (inl e) = inr (inl e)
Member-other a b (x ∷ before) after (inr m) = elim (Member-other a b before after m) [
  | inl e ↦ inl e
  | inr k ↦ inr (inr k)
]

Step-IsStuck : {msg : Bytes} {s t : Line} → Step s t → IsStuck msg s → IsStuck msg t
Step-IsStuck (loops (goes_on p go)) k = cc (p, k.no_reader)
Step-IsStuck (loops (leaves p stop)) k = cc (p, k.no_reader)
Step-IsStuck (loops (receives m rest p c)) k = cc (p, k.no_reader)
Step-IsStuck (loops (finds_closed p c d)) k = cc (p, k.no_reader)
Step-IsStuck (loops (writes m p)) k = cc (p, k.no_reader)
Step-IsStuck (loops (fails m p)) k = cc (p, k.no_reader)
Step-IsStuck (writers (enters m go)) k = record {
  no_reader = k.no_reader;
  full = k.full;
  waits = inr k.waits;
}
Step-IsStuck (writers (sends before after m e c room)) k = absurd (omega (arith, room, k.full))
Step-IsStuck (ending (stops_running p)) k = record {
  no_reader = k.no_reader;
  full = k.full;
  waits = k.waits;
}
Step-IsStuck (ending (closes p)) k = record {
  no_reader = k.no_reader;
  full = k.full;
  waits = k.waits;
}

-- A writer that waits for room in the channel of a session whose write loop has ended waits in
-- every state that can follow, where it panics if the channel is closed.
pub Reach-IsStuck :
    {msg : Bytes} {s t : Line}
    → IsStuck msg s
    → Reach s t
    → Member msg t.pending × (t.read_pc ≡ closed → (p : Panics t) × (p.msg ≡ msg))
Reach-IsStuck {msg} {s} {t} k r =
    let stuck = go r in
    (stuck.waits, λ c. (record { is_closed = c; msg = msg; is_pending = stuck.waits }, refl))
  where
    go : {u : Line} → Reach s u → IsStuck msg u
    go here = k
    go (next q e) = Step-IsStuck e (go q)
