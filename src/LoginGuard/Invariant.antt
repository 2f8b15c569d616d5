-- ===== src/LoginGuard/Invariant.antt =====
-- What holds of the guard after any calls.
use gateway_lite.Clock.{second}
use gateway_lite.Common.{
  Bool-cases, Bytes, Entries, IsMap, List, Option, [], arith, bytes_eq, delete-Entries,
  delete-IsMap, false, inl, inr, insert, insert-Entries, insert-IsMap, length, lookup, ltb, nat_eq,
  none, refl, some, ℕ, ◌+◌, ◌<◌, ◌∷◌, ◌≡◌, ◌≤◌, true, ◌⊎◌, ◌-◌, ◌*◌, ◌/◌,
}
use gateway_lite.Common.Int.{ℤ, pos, negsuc, sub_ℕ}
use gateway_lite.LoginGuard.{
  Guard, LoginRecord, max_login_fails, login_lock_duration, allowed, on_failure, on_success,
  find_record, count_failure, check_record, gc_locked, login_records_max_keep,
}
use gateway_lite.LoginGuard.Keys.{gc_locked-IsMap, lookup-gc_locked}

-- At this time the count of a record is below the limit, and nothing in it lies further in the
-- future than a lockout that begins now.
pub record IsValidRecord (now : ℕ) (r : LoginRecord) : Type 0 where
  pub below : r.fails < max_login_fails
  pub begun : r.first_fail ≤ now
  pub ends : r.locked_till ≤ now + login_lock_duration

pub record IsValid (now : ℕ) (g : Guard) : Type 0 where
  pub keys : IsMap g
  pub records : Entries (λ k r. IsValidRecord now r) g

-- One call of the guard, `allowed` with its second reading of the clock.
pub data Call : Type 0 where
  asks : Bytes → ℕ → Call
  fails succeeds : Bytes → Call

unfoldable pub step : Guard → ℕ × Call → Guard
step g (now, asks key later) = (allowed g key now later).0
step g (now, fails key) = on_failure g key now
step g (now, succeeds key) = on_success g key

unfoldable pub run : Guard → List (ℕ × Call) → Guard
run g [] = g
run g (c ∷ cs) = run (step g c) cs

-- The calls come in the order of their times.
abbrev pub InOrder : ℕ → List (ℕ × Call) → Type 0
InOrder now [] = Unit {0}
InOrder now ((t, c) ∷ cs) = (now ≤ t) × InOrder t cs

abbrev pub end_time : ℕ → List (ℕ × Call) → ℕ
end_time now [] = now
end_time now ((t, c) ∷ cs) = end_time t cs

gc_locked-IsValid : (now : ℕ) (g : Guard) → IsValid now g → IsValid now (gc_locked now g)
gc_locked-IsValid now g v = record {
  keys = gc_locked-IsMap g now v.keys;
  records = λ k r l. v.records k r (ground (arith, lookup-gc_locked g k now v.keys));
}

-- The same guard at a later time.
IsValid-later : (now t : ℕ) (g : Guard) → now ≤ t → IsValid now g → IsValid t g
IsValid-later now t g h v = record {
  keys = v.keys;
  records = λ k r l.
      let w = v.records k r l in
      record { below = w.below; begun = omega (arith, w.begun); ends = omega (arith, w.ends) };
}

insert-IsValid :
    (now : ℕ) (g : Guard) (k : Bytes) (r : LoginRecord)
    → IsValidRecord now r
    → IsValid now g
    → IsValid now (insert k r g)
insert-IsValid now g k r w v = record {
  keys = insert-IsMap k r g v.keys;
  records = insert-Entries (λ k r. IsValidRecord now r) k r g w v.records;
}

count_failure-IsValidRecord :
    (now : ℕ) (r : LoginRecord) → IsValidRecord now r → IsValidRecord now (count_failure now r)
unfolding count_failure
count_failure-IsValidRecord now r v = ground arith

find_record-IsValid :
    (now : ℕ) (g : Guard) (o : Option LoginRecord)
    → ((r : LoginRecord) → o ≡ some r → IsValidRecord now r)
    → IsValid now g
    → IsValid now (find_record g now o).0 × IsValidRecord now (find_record g now o).1
unfolding find_record
find_record-IsValid now g (some r) w v = (v, w r refl)
find_record-IsValid now g none w v = (
  elim (Bool-cases (ltb login_records_max_keep (length g))) [
    | inl many ↦ rw many (gc_locked-IsValid now g v)
    | inr few ↦ rw few v
  ],
  omega arith,
)

check_record-IsValid :
    (now later : ℕ) (g : Guard) (key : Bytes) (o : Option LoginRecord)
    → ((r : LoginRecord) → o ≡ some r → IsValidRecord now r)
    → IsValid now g
    → IsValid now (check_record g key now later o).0
unfolding check_record
check_record-IsValid now later g key none w v = v
check_record-IsValid now later g key (some r) w v =
    let u = w r refl in
    ground
      (arith, insert-IsValid now g key (record r { fails = 0 }) (omega (arith, u.begun, u.ends)) v)

step-IsValid : (now : ℕ) (g : Guard) (c : Call) → IsValid now g → IsValid now (step g (now, c))
unfolding step on_failure on_success allowed
step-IsValid now g (asks key later) v =
    check_record-IsValid now later g key (lookup key g) (λ r l. v.records key r l) v
step-IsValid now g (fails key) v =
    let f = find_record-IsValid now g (lookup key g) (λ r l. v.records key r l) v in
    insert-IsValid now (find_record g now (lookup key g)).0 key _
      (count_failure-IsValidRecord now _ f.1) f.0
step-IsValid now g (succeeds key) v = record {
  keys = delete-IsMap key g v.keys;
  records = delete-Entries (λ k r. IsValidRecord now r) key g v.records;
}

run-IsValid :
    (now : ℕ) (g : Guard) (cs : List (ℕ × Call))
    → InOrder now cs
    → IsValid now g
    → IsValid (end_time now cs) (run g cs)
unfolding run
run-IsValid now g [] o v = v
run-IsValid now g ((t, c) ∷ cs) o v =
    run-IsValid t (step g (t, c)) cs o.1 (step-IsValid t g c (IsValid-later now t g o.0 v))

-- The wait that a refusal reports, 0 where it is negative.
abbrev pub seconds : ℤ → ℕ
seconds (pos n) = n
seconds (negsuc n) = 0

-- How long a refused key is told to wait, at the two readings of the clock; and whoever waits so long
-- from the second one on may try.
abbrev pub Waits : Guard → Bytes → ℕ → ℕ → ℕ → Type 0
Waits g key now later t =
    let wait = seconds (allowed g key now later).1.1 in
    (wait ≤ 601)
    × ((1 ≤ wait) ⊎ (now + second ≤ later))
    × ((allowed g key (later + wait * second) t).1.0 ≡ true)

seconds-sub_ℕ : (m n : ℕ) → seconds (sub_ℕ m n) ≡ m - n
seconds-sub_ℕ m n = ground arith

allowed-Waits :
    (now later t : ℕ) (g : Guard) (key : Bytes) (o : Option LoginRecord)
    → lookup key g ≡ o
    → ((r : LoginRecord) → o ≡ some r → IsValidRecord now r)
    → now ≤ later
    → (allowed g key now later).1.0 ≡ false
    → Waits g key now later t
unfolding allowed check_record
allowed-Waits now later t g key none e w l h = cc (rw e at h)
allowed-Waits now later t g key (some r) e w l h = elim (Bool-cases (ltb now r.locked_till)) [
  | inr free ↦ absurd (ground (arith, e))
  | inl wait ↦
      let u = (w r refl).ends in
      let n = sub_ℕ ((r.locked_till - later) / second + 1) ((later - r.locked_till) / second) in
      let p : (allowed g key now later).1.1 ≡ n = rw (e, check_record, wait) refl in
      let q : seconds n ≡ (r.locked_till - later) / second + 1 - (later - r.locked_till) / second =
        seconds-sub_ℕ _ _ in
      let over : r.locked_till ≤ later + seconds n * second = rw q (omega arith) in
      let past : ltb (later + seconds n * second) r.locked_till ≡ false = ground arith in
      rw p (rw q (omega arith), rw q (ground arith), ground (arith, e))
]

-- After any calls in the order of their times, a key that is refused is told to wait at most 601
-- seconds, and at least one unless the second reading of the clock is a second or more after the
-- first; and when it has waited that long from the second reading on it may try, if nothing has
-- called the guard meanwhile.
pub run-wait :
    (cs : List (ℕ × Call)) (key : Bytes) (later t : ℕ)
    → InOrder 0 cs
    → end_time 0 cs ≤ later
    → (allowed (run [] cs) key (end_time 0 cs) later).1.0 ≡ false
    → Waits (run [] cs) key (end_time 0 cs) later t
run-wait cs key later t o l h =
    let v = run-IsValid 0 [] cs o (record { keys = tt; records = λ k r l. cc }) in
    allowed-Waits (end_time 0 cs) later t (run [] cs) key (lookup key (run [] cs)) refl
      (λ r l. v.records key r l) l h
