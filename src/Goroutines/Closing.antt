-- ===== src/Goroutines/Closing.antt =====
-- The end of a session in `readLoop` of wssession.go, against the writers that are under way and
-- the write loop.
use gateway_lite.Goroutines.{
  Line, ReadPc, WritePc, WriterStep, Reach, Step, reads, LoopStep, Panics, at_write, closed, enters,
  loops, new_line, next, stops, at_test, ended, goes_on, here, writers, ending, sends, at_receive,
  leaves, stops_running, closes, receives, finds_closed, writes, fails, EndStep,
}
use gateway_lite.Common.{
  Bool, refl, true, false, inl, inr, [], suc, nat_eq, bytes_eq, List, Member, ℕ, ◌≡◌, ◌≤◌, Bytes,
  arith, ◌++◌, ◌+◌, ◌<◌, ◌∷◌, ◌∙◌, ◌⊎◌, Bool-cases, ap,
}

-- The session runs until a read fails.
abbrev going : ReadPc → Bool
going reads = true
going stops = false
going closed = false

Reach-going : {s : Line} → Reach new_line s → s.running ≡ going s.read_pc
Reach-going here = refl
Reach-going (next r (loops (goes_on p go))) = Reach-going r
Reach-going (next r (loops (leaves p stop))) = Reach-going r
Reach-going (next r (loops (receives msg rest p c))) = Reach-going r
Reach-going (next r (loops (finds_closed p c d))) = Reach-going r
Reach-going (next r (loops (writes msg p))) = Reach-going r
Reach-going (next r (loops (fails msg p))) = Reach-going r
Reach-going (next r (writers (enters msg go))) = Reach-going r
Reach-going (next r (writers (sends before after msg e c room))) = Reach-going r
Reach-going (next r (ending (stops_running p))) = refl
Reach-going (next r (ending (closes p))) = Reach-going r ∙ ap going p

-- As long as the connection of a session is read, the process can come to a panic: the writer of any
-- message passes its test of the session, the read loop ends the session and closes the
-- channel, and the writer sends.
pub writer-Panics :
    {s : Line}
    → Reach new_line s
    → s.read_pc ≡ reads
    → (msg : Bytes) → (t : Line) × Reach s t × (p : Panics t) × (p.msg ≡ msg)
writer-Panics {s} r e msg =
    let a = record s { pending = msg ∷ s.pending } in
    let b = record a { running = false; read_pc = stops } in
    let c = record b { read_pc = closed } in
    let go : s.running ≡ true = Reach-going r ∙ ap going e in
    (
      c,
      next (next (next here (writers (enters msg go))) (ending (stops_running e)))
          (ending (closes refl)),
      record { is_closed = refl; msg = msg; is_pending = inl refl },
      refl,
    )

-- Where a message stands once another writer is done.
Member-rest :
    {A : Type 0} (a b : A) (before after : List A)
    → Member a (before ++ after)
    → Member a (before ++ b ∷ after)
Member-rest a b [] after m = inr m
Member-rest a b (x ∷ before) after (inl e) = inl e
Member-rest a b (x ∷ before) after (inr m) = inr (Member-rest a b before after m)

-- What is fixed once a session has stopped.
record IsLate (s t : Line) : Type 0 where
  pub stopped : t.running ≡ false
  pub known : (msg : Bytes) → Member msg t.pending → Member msg s.pending

Step-IsLate : {s t u : Line} → Step t u → IsLate s t → IsLate s u
Step-IsLate (loops (goes_on p go)) l = record { stopped = l.stopped; known = l.known }
Step-IsLate (loops (leaves p stop)) l = record { stopped = l.stopped; known = l.known }
Step-IsLate (loops (receives msg rest p c)) l = record { stopped = l.stopped; known = l.known }
Step-IsLate (loops (finds_closed p c d)) l = record { stopped = l.stopped; known = l.known }
Step-IsLate (loops (writes msg p)) l = record { stopped = l.stopped; known = l.known }
Step-IsLate (loops (fails msg p)) l = record { stopped = l.stopped; known = l.known }
Step-IsLate (writers (enters msg go)) l = cc (go, l.stopped)
Step-IsLate (writers (sends before after msg e c room)) l = record {
  stopped = l.stopped;
  known = λ m k. l.known m (rw e (Member-rest m msg before after k));
}
Step-IsLate (ending (stops_running p)) l = record { stopped = refl; known = l.known }
Step-IsLate (ending (closes p)) l = record { stopped = l.stopped; known = l.known }

Reach-IsLate : {s t : Line} → s.running ≡ false → Reach s t → IsLate s t
Reach-IsLate stop here = record { stopped = stop; known = λ msg m. m }
Reach-IsLate stop (next r e) = Step-IsLate e (Reach-IsLate stop r)

-- No other writer is in danger: what panics after a session has stopped was under way when it did.
pub Panics-pending :
    {s t : Line} → s.running ≡ false → Reach s t → (p : Panics t) → Member p.msg s.pending
Panics-pending stop r p = (Reach-IsLate stop r).known p.msg p.is_pending

-- The steps of the write loop in a run.
abbrev pub loop_steps : {s t : Line} → Reach s t → ℕ
loop_steps here = 0
loop_steps (next r (loops l)) = suc (loop_steps r)
loop_steps (next r (writers o)) = loop_steps r
loop_steps (next r (ending o)) = loop_steps r

-- How far a stopped write loop can still go.
abbrev left : WritePc → ℕ
left at_test = 1
left at_receive = 3
left (at_write msg) = 2
left ended = 0

loop-left : {s t : Line} → s.running ≡ false → LoopStep s t → left t.write_pc < left s.write_pc
loop-left stop (goes_on p go) = cc (go, stop)
loop-left stop (leaves p h) = rw p (omega arith)
loop-left stop (receives msg rest p c) = rw p (omega arith)
loop-left stop (finds_closed p c d) = rw p (omega arith)
loop-left stop (writes msg p) = rw p (omega arith)
loop-left stop (fails msg p) = rw p (omega arith)

writer-write_pc : {s t : Line} → WriterStep s t → t.write_pc ≡ s.write_pc
writer-write_pc (enters msg go) = refl
writer-write_pc (sends before after msg e c room) = refl

end-write_pc : {s t : Line} → EndStep s t → t.write_pc ≡ s.write_pc
end-write_pc (stops_running p) = refl
end-write_pc (closes p) = refl

loop_steps-left :
    {s t : Line}
    → s.running ≡ false
    → (r : Reach s t) → loop_steps r + left t.write_pc ≤ left s.write_pc
loop_steps-left stop here = omega arith
loop_steps-left {s} stop (next r (loops l)) =
    omega (arith, loop_steps-left stop r, loop-left (Reach-IsLate stop r).stopped l)
loop_steps-left stop (next r (writers o)) = rw (writer-write_pc o) (loop_steps-left stop r)
loop_steps-left stop (next r (ending o)) = rw (end-write_pc o) (loop_steps-left stop r)

left-le : (p : WritePc) → left p ≤ 3
left-le p = ground arith

-- Where the channel is closed, only the end holds the write loop.
loop-moves :
    (t : Line) (p : WritePc)
    → t.write_pc ≡ p
    → t.read_pc ≡ closed
    → (t.write_pc ≡ ended) ⊎ ((u : Line) × LoopStep t u)
loop-moves t at_test e c = elim (Bool-cases t.running) [
  | inl y ↦ inr (_, goes_on e y)
  | inr n ↦ inr (_, leaves e n)
]
loop-moves t at_receive e c = go t.write_ch refl
  where
    go : (l : List Bytes) → t.write_ch ≡ l → (t.write_pc ≡ ended) ⊎ ((u : Line) × LoopStep t u)
    go [] h = inr (_, finds_closed e h c)
    go (msg ∷ rest) h = inr (_, receives msg rest e h)
loop-moves t (at_write msg) e c = inr (_, writes msg e)
loop-moves t ended e c = inl e

-- The write loop of a session that has stopped takes three more steps at most, whatever the others
-- do; and once the channel is closed it can take a step until it has ended.
pub loop_steps-ends :
    {s t : Line}
    → s.running ≡ false
    → (r : Reach s t)
    → (loop_steps r ≤ 3) × (t.read_pc ≡ closed → (t.write_pc ≡ ended) ⊎ ((u : Line) × LoopStep t u))
loop_steps-ends {s} {t} stop r =
    (omega (arith, loop_steps-left stop r, left-le s.write_pc), loop-moves t t.write_pc refl)
