-- ===== src/Goroutines/Order.antt =====
-- What becomes of the messages of a session: the channel of wssession.go between its writers and
-- its `writeLoop`.
use gateway_lite.Goroutines.{
  Line, WritePc, LoopStep, at_write, goes_on, leaves, at_test, receives, at_receive, finds_closed,
  write_ch_size, writes, ended, fails, WriterStep, Reach, Step, enters, loops, new_line, next,
  writers, ending, sends, here, stops_running, closes, EndStep,
}
use mathlib.Core.List.{append_assoc, append-nil}
use gateway_lite.Common.{
  [], nat_eq, bytes_eq, List, Bytes, ◌≡◌, ◌++◌, length, ◌∷◌, ◌≤◌, ◌⊎◌, refl, inl, inr, arith,
  length-append,
}

-- The message that the write loop has taken and not written.
abbrev pub held : WritePc → List Bytes
held at_test = []
held at_receive = []
held (at_write msg) = msg ∷ []
held ended = []

-- What was accepted is, in its order, what was sent, what was lost, what the loop holds and what
-- waits; one message is lost at most, and then the loop has ended.
pub record IsOrdered (s : Line) : Type 0 where
  pub order : s.accepted ≡ s.sent ++ s.lost ++ held s.write_pc ++ s.write_ch
  pub room : length s.write_ch ≤ write_ch_size
  pub loss : (s.lost ≡ []) ⊎ ((msg : Bytes) × (s.lost ≡ msg ∷ []) × (s.write_pc ≡ ended))

-- A loop that has not ended has lost nothing.
lost-going : (s : Line) → IsOrdered s → (s.write_pc ≡ ended → ⊥) → s.lost ≡ []
lost-going s o h = elim o.loss [ inl e ↦ e | inr (msg, e, p) ↦ absurd (h p) ]

ruleset lists = (append_assoc, append-nil)

loop-IsOrdered : {s t : Line} → LoopStep s t → IsOrdered s → IsOrdered t
loop-IsOrdered {s} (goes_on p go) o = record {
  order = rw p at o.order;
  room = o.room;
  loss = inl (lost-going s o (λ e. cc));
}
loop-IsOrdered {s} (leaves p stop) o = record {
  order = rw p at o.order;
  room = o.room;
  loss = inl (lost-going s o (λ e. cc));
}
loop-IsOrdered {s} (receives msg rest p c) o = record {
  order = simp (rw (p, c) at o.order, lists);
  room = ground (arith, o.room, c);
  loss = inl (lost-going s o (λ e. cc));
}
loop-IsOrdered {s} (finds_closed p c d) o = record {
  order = rw p at o.order;
  room = o.room;
  loss = inl (lost-going s o (λ e. cc));
}
loop-IsOrdered {s} (writes msg p) o =
    let e = lost-going s o (λ q. cc) in
    record { order = simp (rw (p, e) at o.order, lists, e); room = o.room; loss = inl e }
loop-IsOrdered {s} (fails msg p) o =
    let e = lost-going s o (λ q. cc) in
    record {
      order = simp (rw (p, e) at o.order, lists, e);
      room = o.room;
      loss = inr (msg, rw e refl, refl);
    }

writer-IsOrdered : {s t : Line} → WriterStep s t → IsOrdered s → IsOrdered t
writer-IsOrdered (enters msg go) o = record { order = o.order; room = o.room; loss = o.loss }
writer-IsOrdered {s} (sends before after msg e open_ room) o = record {
  order = simp (o.order, lists);
  room = omega (arith, room, length-append s.write_ch (msg ∷ []));
  loss = o.loss;
}

end-IsOrdered : {s t : Line} → EndStep s t → IsOrdered s → IsOrdered t
end-IsOrdered (stops_running p) o = record { order = o.order; room = o.room; loss = o.loss }
end-IsOrdered (closes p) o = record { order = o.order; room = o.room; loss = o.loss }

Step-IsOrdered : {s t : Line} → Step s t → IsOrdered s → IsOrdered t
Step-IsOrdered (loops l) = loop-IsOrdered l
Step-IsOrdered (writers e) = writer-IsOrdered e
Step-IsOrdered (ending e) = end-IsOrdered e

-- However the goroutines of a session interleave from its start, the channel keeps to its ten
-- places, and what it has accepted is, in its order, what the connection has taken, at most one
-- message whose write failed, what the write loop holds, and what waits in the channel; after a
-- failed write the loop has ended.
pub Reach-IsOrdered : {s : Line} → Reach new_line s → IsOrdered s
Reach-IsOrdered here = record { order = refl; room = omega arith; loss = inl refl }
Reach-IsOrdered (next r e) = Step-IsOrdered e (Reach-IsOrdered r)
