-- ===== src/Goroutines/Tests.antt =====
-- Runs of the goroutines of a session: one message that is sent, and a connection whose first write
-- fails while more messages come.
use gateway_lite.Sample.{login_req}
use gateway_lite.Goroutines.Runs.{line_of, write_loop-Reach}
use gateway_lite.Gateway.Loops.{write_loop}
use gateway_lite.Gateway.Connection.{new_session}
use gateway_lite.Gateway.{Session}
use gateway_lite.Goroutines.Stall.{IsStuck, Reach-IsStuck}
use gateway_lite.Goroutines.Order.{IsOrdered, Reach-IsOrdered, held}
use gateway_lite.Goroutines.Closing.{loop_steps, Panics-pending, writer-Panics, loop_steps-ends}
use gateway_lite.Goroutines.{
  Line, Panics, Reach, at_test, closed, ended, new_line, next, stops, at_receive, at_write, here,
  loops, writers, ending, reads, LoopStep, closes, enters, fails, sends, stops_running, writes,
  finds_closed, goes_on, receives, leaves, write_ch_size,
}
use gateway_lite.Common.{
  Bytes, refl, true, false, inl, [], nat_eq, bytes_eq, List, Member, utf8, ◌∷◌, replicate, ◌≡◌, ◌≤◌,
  arith, ◌++◌, ◌⊎◌, length, ◌<◌, Bool, ◌==◌,
}

abbrev msg : Bytes
msg = utf8 "notice"

-- A writer passes its test, and the write loop comes to its receive.
abbrev waiting : Line
waiting = record new_line { pending = msg ∷ []; write_pc = at_receive }

waiting-Reach : Reach new_line waiting
waiting-Reach = next (next here (writers (enters msg refl))) (loops (goes_on refl refl))

abbrev taken : Line
taken = record new_line { write_pc = at_write msg; accepted = msg ∷ [] }

taken-Reach : Reach new_line taken
taken-Reach =
    next (next waiting-Reach (writers (sends [] [] msg refl (λ e. cc) (omega arith))))
      (loops (receives msg [] refl refl))

abbrev delivered : Line
delivered = record taken { write_pc = at_test; sent = msg ∷ [] }

Reach-IsOrdered_example : IsOrdered delivered
Reach-IsOrdered_example = Reach-IsOrdered (next taken-Reach (loops (writes msg refl)))

-- The order at that place, read off.
delivered-order : msg ∷ [] ≡ (msg ∷ []) ++ [] ++ held at_test ++ []
delivered-order = Reach-IsOrdered_example.order

-- A writer panics although it has tested the session.
writer-Panics_example : (t : Line) × Reach delivered t × (p : Panics t) × (p.msg ≡ msg)
writer-Panics_example = writer-Panics (next taken-Reach (loops (writes msg refl))) refl msg

-- The session stops while a writer is under way and the write loop receives.
abbrev stopped : Line
stopped = record waiting { running = false; read_pc = stops }

abbrev shut : Line
shut = record stopped { read_pc = closed }

abbrev bad_send : Panics shut
bad_send = record { is_closed = refl; msg = msg; is_pending = inl refl }

Panics-pending_case : Member msg stopped.pending
Panics-pending_case = Panics-pending refl (next here (ending (closes refl))) bad_send

-- After the close the write loop goes back to its test, and ends.
abbrev over : Line
over = record shut { write_pc = ended }

over-Reach : Reach stopped over
over-Reach =
    next (next (next here (ending (closes refl))) (loops (finds_closed refl refl refl)))
      (loops (leaves refl refl))

loop_steps-ends_example :
    (loop_steps over-Reach ≤ 3)
    × (over.read_pc ≡ closed → (over.write_pc ≡ ended) ⊎ ((u : Line) × LoopStep over u))
loop_steps-ends_example = loop_steps-ends refl over-Reach

-- A failed write, ten more messages in the channel, and one that waits for room.
abbrev ten : List Bytes
ten = replicate 10 msg

abbrev stuck : Line
stuck = record new_line {
  write_pc = ended;
  write_ch = ten;
  pending = msg ∷ [];
  accepted = msg ∷ ten;
  lost = msg ∷ [];
}

fill :
    {s t : Line}
    → Reach s t
    → t.running ≡ true
    → t.read_pc ≡ reads
    → length t.write_ch < write_ch_size
    → Reach s (record t { write_ch = t.write_ch ++ msg ∷ []; accepted = t.accepted ++ msg ∷ [] })
fill {s} {t} r go e room =
    next (next r (writers (enters msg go)))
      (writers (sends [] t.pending msg refl (λ c. cc (e, c)) room))

failed-Reach : Reach new_line (record taken { write_pc = ended; lost = msg ∷ [] })
failed-Reach = next taken-Reach (loops (fails msg refl))

-- Such a state is one that the session can come to.
stuck-Reach : Reach new_line stuck
stuck-Reach = next (go failed-Reach) (writers (enters msg refl))
  where
    go :
        Reach new_line (record taken { write_pc = ended; lost = msg ∷ [] })
        → Reach new_line (record stuck { pending = [] })
    go r0 =
        let r1 = fill r0 refl refl (omega arith) in
        let r2 = fill r1 refl refl (omega arith) in
        let r3 = fill r2 refl refl (omega arith) in
        let r4 = fill r3 refl refl (omega arith) in
        let r5 = fill r4 refl refl (omega arith) in
        let r6 = fill r5 refl refl (omega arith) in
        let r7 = fill r6 refl refl (omega arith) in
        let r8 = fill r7 refl refl (omega arith) in
        let r9 = fill r8 refl refl (omega arith) in fill r9 refl refl (omega arith)

stuck-IsStuck : IsStuck msg stuck
stuck-IsStuck = record { no_reader = refl; full = refl; waits = inl refl }

abbrev stuck_closed : Line
stuck_closed = record stuck { running = false; read_pc = closed }

Reach-IsStuck_example :
    Member msg stuck_closed.pending
    × (stuck_closed.read_pc ≡ closed → (p : Panics stuck_closed) × (p.msg ≡ msg))
Reach-IsStuck_example =
    Reach-IsStuck stuck-IsStuck
      (next (next here (ending (stops_running refl))) (ending (closes refl)))

-- Two messages on a connection that takes only the first.
abbrev two_wait : Session
two_wait = record (new_session 0 login_req (utf8 "ann")) { write_ch = utf8 "a" ∷ utf8 "b" ∷ [] }

abbrev takes_a : Bytes → Bool
takes_a m = m == utf8 "a"

write_loop-Reach_example :
    (t : Line) × Reach (line_of two_wait) t
    × (t.sent ≡ (write_loop 2 takes_a two_wait).0)
    × (t.write_ch ≡ (write_loop 2 takes_a two_wait).1.write_ch)
write_loop-Reach_example = write_loop-Reach 2 takes_a two_wait

one_sent : (write_loop 2 takes_a two_wait).0 ≡ utf8 "a" ∷ []
unfolding write_loop new_session
one_sent = refl
