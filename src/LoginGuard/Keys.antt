-- ===== src/LoginGuard/Keys.antt =====
-- What the operations do to the key they are called with, and to the others.
use gateway_lite.Common.{
  Bool, Bool-cases, Bytes, IsMap, Option, [], arith, beq_false, bytes_beq_iff, bytes_eq,
  if◌then◌else◌, inl, inr, length, lookup, lookup-insert_ne, ltb, nat_eq, none, refl, some, true, ℕ,
  ◌∷◌, ◌≡◌, ◌≢◌, ◌≤◌,
}
use gateway_lite.Common.Int.{ℤ, pos}
use gateway_lite.LoginGuard.{
  Guard, LoginRecord, login_records_max_keep, allowed, gc_locked, on_failure, find_record,
  count_failure, check_record, is_expired,
}

-- The answer of `allowed`, from the record.
abbrev verdict : ℕ → ℕ → Option LoginRecord → Bool × ℤ
verdict now later none = (true, pos 0)
verdict now later (some r) = (check_record [] [] now later (some r)).1

allowed-verdict :
    (g : Guard) (key : Bytes) (now later : ℕ)
    → (allowed g key now later).1 ≡ verdict now later (lookup key g)
unfolding allowed check_record
allowed-verdict g key now later = ground arith

-- What a collection leaves of a record.
abbrev pub after_gc : ℕ → Option LoginRecord → Option LoginRecord
after_gc now none = none
after_gc now (some r) = if is_expired now r then none else some r

pub lookup-gc_locked :
    (g : Guard) (key : Bytes) (now : ℕ)
    → IsMap g
    → lookup key (gc_locked now g) ≡ after_gc now (lookup key g)
unfolding gc_locked
lookup-gc_locked [] key now d = refl
lookup-gc_locked ((k, r) ∷ g) key now d =
    ground (arith, lookup-gc_locked g key now d.1, bytes_beq_iff k key)

pub gc_locked-IsMap : (g : Guard) (now : ℕ) → IsMap g → IsMap (gc_locked now g)
unfolding gc_locked
gc_locked-IsMap [] now d = tt
gc_locked-IsMap ((k, r) ∷ g) now d =
    ground (arith, gc_locked-IsMap g now d.1, lookup-gc_locked g k now d.1)

-- A collected record was not locked then, and is not locked later.
verdict-after_gc :
    (now t later : ℕ) (o : Option LoginRecord)
    → now ≤ t
    → verdict t later (after_gc now o) ≡ verdict t later o
unfolding is_expired check_record
verdict-after_gc now t later none h = refl
verdict-after_gc now t later (some r) h = ground arith

verdict-find_record :
    (g : Guard) (key : Bytes) (now t later : ℕ) (o : Option LoginRecord)
    → IsMap g
    → now ≤ t
    → verdict t later (lookup key (find_record g now o).0) ≡ verdict t later (lookup key g)
unfolding find_record
verdict-find_record g key now t later (some r) d h = refl
verdict-find_record g key now t later none d h =
    elim (Bool-cases (ltb login_records_max_keep (length g))) [
      | inl many ↦
          rw (many, find_record, lookup-gc_locked g key now d)
            (verdict-after_gc now t later (lookup key g) h)
      | inr few ↦ rw (few, find_record)
    ]

-- A failure of one key, also one that collects expired records, does not change what `allowed`
-- answers for another key, at that time or later.
pub allowed-on_failure_ne :
    (g : Guard) (key other : Bytes) (now t later : ℕ)
    → IsMap g
    → key ≢ other
    → now ≤ t
    → (allowed (on_failure g key now) other t later).1 ≡ (allowed g other t later).1
unfolding on_failure
allowed-on_failure_ne g key other now t later d ne h =
    rw
      (
        allowed-verdict (on_failure g key now) other t later,
        allowed-verdict g other t later,
        on_failure,
        lookup-insert_ne key other (count_failure now (find_record g now (lookup key g)).1)
            (find_record g now (lookup key g)).0 (beq_false key other ne),
      )
      (verdict-find_record g other now t later (lookup key g) d h)
