-- ===== src/Goroutines/Runs.antt =====
-- The operations of a session in one go, as the handlers of the gateway use them, are runs of its
-- goroutines: `writeLoop`, `writeBuff` and the end of `readLoop` in wssession.go.
use mathlib.Core.List.{append-nil, append_assoc}
use gateway_lite.Goroutines.{
  Line, Reach, ReadPc, at_test, next, closed, here, reads, stops, at_receive, at_write, loops,
  goes_on, receives, ended, fails, writes,
}
use gateway_lite.Gateway.Loops.{write_loop}
use gateway_lite.Gateway.{Session}
use gateway_lite.Common.{
  Bool, refl, inl, inr, [], zero, suc, nat_eq, bytes_eq, List, ℕ, Bytes, if◌then◌else◌, ◌≡◌, ◌++◌,
  ◌∷◌, Bool-cases, ◌∙◌, arith,
}

Reach-trans : {s t u : Line} → Reach s t → Reach t u → Reach s u
Reach-trans r here = r
Reach-trans r (next q e) = next (Reach-trans r q) e

read_pc_of : Session → ReadPc
read_pc_of s = if s.closed then closed else if s.running then reads else stops

-- A session whose write loop is before its test, with no writer under way.
unfoldable pub line_of : Session → Line
unfolding read_pc_of
line_of s = record {
  running = s.running;
  write_ch = s.write_ch;
  write_pc = at_test;
  read_pc = read_pc_of s;
  pending = [];
  accepted = s.write_ch;
  sent = [];
  lost = [];
}

-- What a run of the loop shows of a result of `write_loop`.
record Shows (l : Line) (out : List Bytes × Session) (t : Line) : Type 0 where
  pub reach : Reach l t
  pub sent : t.sent ≡ l.sent ++ out.0
  pub rest : t.write_ch ≡ out.1.write_ch

run_of :
    (rounds : ℕ) (takes : Bytes → Bool) (s : Session) (l : Line) (ch : List Bytes)
    → s.write_ch ≡ ch
    → l.running ≡ s.running
    → l.write_ch ≡ s.write_ch
    → l.write_pc ≡ at_test
    → (t : Line) × Shows l (write_loop rounds takes s) t
unfolding write_loop
run_of zero takes s l ch c go e p = (l, record { reach = here; sent = simp append-nil; rest = e })
run_of (suc rounds) takes s l [] c go e p =
    rw c (l, record { reach = here; sent = simp append-nil; rest = rw c at e })
run_of (suc rounds) takes s l (msg ∷ rest) c go e p = elim (Bool-cases s.running) [
  | inr n ↦ rw (c, n) (l, record { reach = here; sent = simp append-nil; rest = e ∙ c })
  | inl y ↦
      let a = record l { write_pc = at_receive } in
      let b = record a { write_pc = at_write msg; write_ch = rest } in
      let to_b : Reach l b =
        next (next here (loops (goes_on p (go ∙ y)))) (loops (receives msg rest refl (e ∙ c))) in
      elim (Bool-cases (takes msg)) [
        | inr n ↦
            let d = record b { write_pc = ended; lost = b.lost ++ msg ∷ [] } in
            rw (c, y, n)
              (
                d,
                record {
                  reach = next to_b (loops (fails msg refl));
                  sent = simp append-nil;
                  rest = refl;
                },
              )
        | inl t ↦
            let d = record b { write_pc = at_test; sent = b.sent ++ msg ∷ [] } in
            let (f, q) =
              run_of rounds takes (record s { write_ch = rest }) d rest refl go refl refl in
            let rest_run = write_loop rounds takes (record s { write_ch = rest }) in
            let whole : write_loop (suc rounds) takes s ≡ (msg ∷ rest_run.0, rest_run.1) =
              ground (arith, c, y, t) in
            rw whole (
              f,
              record {
                reach = Reach-trans (next to_b (loops (writes msg refl))) q.reach;
                sent = simp (q.sent, append_assoc);
                rest = q.rest;
              },
            )
      ]
]

-- The rounds of `write_loop` are a run of the write loop of the session: what the connection takes
-- in them is sent, in that order, and what is left in the channel is left there.
pub write_loop-Reach :
    (rounds : ℕ) (takes : Bytes → Bool) (s : Session)
    → (t : Line) × Reach (line_of s) t
      × (t.sent ≡ (write_loop rounds takes s).0)
      × (t.write_ch ≡ (write_loop rounds takes s).1.write_ch)
unfolding line_of
write_loop-Reach rounds takes s =
    let (t, q) = run_of rounds takes s (line_of s) s.write_ch refl refl refl refl in
    (t, q.reach, q.sent, q.rest)
