-- ===== src/LoginGuard.antt =====
-- loginsecurity.go: `loginGuard`, which throttles failed logins by key. A time is its nanoseconds
-- since the zero time, so a record that was never locked has `locked_till` 0.
pub mod Lockout
pub mod Keys
pub mod Invariant
mod Tests
use gateway_lite.Common.{
  Bool, Bytes, Map, Option, [], bytes_eq, delete, false, if◌then◌else◌, insert, leb, length, lookup,
  ltb, nat_eq, none, some, true, ℕ, ◌&&◌, ◌*◌, ◌+◌, ◌-◌, ◌/◌, ◌∷◌,
}
use gateway_lite.Clock.{second, minute}
use gateway_lite.Common.Int.{ℤ, pos, sub_ℕ}

abbrev pub max_login_fails : ℕ
max_login_fails = 5

abbrev pub login_lock_duration : ℕ
login_lock_duration = 10 * minute

abbrev pub login_fail_window : ℕ
login_fail_window = 10 * minute

abbrev pub login_records_max_keep : ℕ
login_records_max_keep = 10000

pub record LoginRecord : Type 0 where
  pub fails : ℕ
  pub first_fail : ℕ
  pub locked_till : ℕ

-- The map of records by key.
abbrev pub Guard : Type 0
Guard = Map Bytes LoginRecord

-- `allowed` with its record found. The wait is computed from a second reading of the clock.
check_record : Guard → Bytes → ℕ → ℕ → Option LoginRecord → Guard × (Bool × ℤ)
check_record g key now later none = (g, (true, pos 0))
check_record g key now later (some r) =
    if ltb now r.locked_till
    then (
      g,
      (false, sub_ℕ ((r.locked_till - later) / second + 1) ((later - r.locked_till) / second)),
    )
    else if ltb 0 r.fails && ltb login_fail_window (now - r.first_fail)
    then (insert key (record r { fails = 0 }) g, (true, pos 0))
    else (g, (true, pos 0))

-- Whether the key may try, and how many seconds it has to wait.
unfoldable pub allowed : Guard → Bytes → ℕ → ℕ → Guard × (Bool × ℤ)
unfolding check_record
allowed g key now later = check_record g key now later (lookup key g)

-- The test of `gcLocked`.
pub is_expired : ℕ → LoginRecord → Bool
is_expired now r = ltb r.locked_till now && ltb login_fail_window (now - r.first_fail)

unfoldable pub gc_locked : ℕ → Guard → Guard
unfolding is_expired
gc_locked now [] = []
gc_locked now ((k, r) ∷ g) =
    let rest = gc_locked now g in if is_expired now r then rest else (k, r) ∷ rest

-- The record that a failure starts from: a key without one gets a fresh record, and the expired
-- records go first when there are too many.
find_record : Guard → ℕ → Option LoginRecord → Guard × LoginRecord
find_record g now (some r) = (g, r)
find_record g now none = (
  if ltb login_records_max_keep (length g) then gc_locked now g else g,
  record { fails = 0; first_fail = now; locked_till = 0 },
)

-- The record after one more failure.
count_failure : ℕ → LoginRecord → LoginRecord
count_failure now r =
    let s =
      if ltb login_fail_window (now - r.first_fail)
      then record r { fails = 0; first_fail = now }
      else r in
    if leb max_login_fails (s.fails + 1)
    then record { fails = 0; first_fail = now; locked_till = now + login_lock_duration }
    else record s { fails = s.fails + 1 }

unfoldable pub on_failure : Guard → Bytes → ℕ → Guard
unfolding find_record count_failure
on_failure g key now =
    let found = find_record g now (lookup key g) in insert key (count_failure now found.1) found.0

unfoldable pub on_success : Guard → Bytes → Guard
on_success g key = delete key g
