-- ===== src/LoginGuard/Lockout.antt =====
-- Five failures within the window lock a key for the lockout time.
use gateway_lite.Common.Int.{pos}
use gateway_lite.Common.{
  All, Bytes, List, [], arith, bytes_eq, length, lookup, lookup-insert_self, ltb, nat_eq, none, not,
  some, suc, true, ℕ, ◌+◌, ◌<◌, ◌∙◌, ◌∷◌, ◌≡◌, ◌≤◌, refl, false, ◌-◌,
}
use gateway_lite.LoginGuard.{
  Guard, LoginRecord, max_login_fails, login_lock_duration, login_fail_window, allowed, on_failure,
  find_record, count_failure, check_record,
}

-- Failed logins of one key, one after the other.
unfoldable pub fail_all : Guard → Bytes → List ℕ → Guard
fail_all g key [] = g
fail_all g key (t ∷ ts) = fail_all (on_failure g key t) key ts

-- Failures at these times fall in the window that the first of them opens.
abbrev pub InWindow : ℕ → List ℕ → Type 0
InWindow start = All (λ t. t ≤ start + login_fail_window)

abbrev pub last_time : ℕ → List ℕ → ℕ
last_time t [] = t
last_time t (u ∷ us) = last_time u us

-- The record of a key after a failure.
on_failure-record :
    (g : Guard) (key : Bytes) (now : ℕ) (r : LoginRecord)
    → lookup key g ≡ some r
    → lookup key (on_failure g key now) ≡ some (count_failure now r)
unfolding on_failure
on_failure-record g key now r h =
    rw (h, find_record) (lookup-insert_self key (count_failure now r) g)

pub fresh_record :
    (g : Guard) (key : Bytes) (now : ℕ)
    → lookup key g ≡ none
    → lookup key (on_failure g key now)
      ≡ some (record { fails = 1; first_fail = now; locked_till = 0 })
unfolding on_failure find_record count_failure
fresh_record g key now h = rw (h, find_record) (lookup-insert_self key _ _ ∙ ground arith)

-- Within the window a failure counts one up, and the fifth locks.
fail_all-record :
    (g : Guard) (key : Bytes) (start n till : ℕ) (ts : List ℕ)
    → n + length ts < max_login_fails
    → InWindow start ts
    → lookup key g ≡ some (record { fails = n; first_fail = start; locked_till = till })
    → lookup key (fail_all g key ts)
      ≡ some (record { fails = n + length ts; first_fail = start; locked_till = till })
unfolding fail_all count_failure
fail_all-record g key start n till [] few w h = h ∙ ground arith
fail_all-record g key start n till (t ∷ ts) few w h =
    fail_all-record (on_failure g key t) key start (n + 1) till ts (omega arith) w.1
      (on_failure-record g key t _ h ∙ ground arith)
    ∙ ground arith

fail_all-locks :
    (g : Guard) (key : Bytes) (start n till t : ℕ) (ts : List ℕ)
    → n + suc (length ts) ≡ max_login_fails
    → InWindow start (t ∷ ts)
    → lookup key g ≡ some (record { fails = n; first_fail = start; locked_till = till })
    → lookup key (fail_all g key (t ∷ ts))
      ≡ some (record {
        fails = 0;
        first_fail = last_time t ts;
        locked_till = last_time t ts + login_lock_duration;
      })
unfolding fail_all count_failure
fail_all-locks g key start n till t [] five w h = on_failure-record g key t _ h ∙ ground arith
fail_all-locks g key start n till t (u ∷ us) five w h =
    fail_all-locks (on_failure g key t) key start (n + 1) till u us (omega arith) w.1
      (on_failure-record g key t _ h ∙ ground arith)

allowed-record :
    (g : Guard) (key : Bytes) (now later : ℕ) (r : LoginRecord)
    → lookup key g ≡ some r
    → (allowed g key now later).1.0 ≡ not (ltb now r.locked_till)
unfolding allowed
allowed-record g key now later r h = rw (h, check_record) (ground arith)

never_locked : (now : ℕ) → not (ltb now 0) ≡ true
never_locked now = ground arith

-- A question in the window of a record that is not locked changes nothing.
pub allowed-open :
    (g : Guard) (key : Bytes) (start n now later : ℕ)
    → now ≤ start + login_fail_window
    → lookup key g ≡ some (record { fails = n; first_fail = start; locked_till = 0 })
    → allowed g key now later ≡ (g, (true, pos 0))
unfolding allowed
allowed-open g key start n now later w h =
    let open_still : ltb login_fail_window (now - start) ≡ false = ground arith in
    let unlocked : ltb now 0 ≡ false = ground arith in
    rw (h, check_record, unlocked, open_still) (ground arith)

pub allowed-fresh :
    (g : Guard) (key : Bytes) (now later : ℕ)
    → lookup key g ≡ none
    → allowed g key now later ≡ (g, (true, pos 0))
unfolding allowed
allowed-fresh g key now later h = rw (h, check_record) refl

-- One of the first four failures in a window.
pub count-record :
    (g : Guard) (key : Bytes) (start n t : ℕ)
    → n + 1 < max_login_fails
    → t ≤ start + login_fail_window
    → lookup key g ≡ some (record { fails = n; first_fail = start; locked_till = 0 })
    → lookup key (on_failure g key t)
      ≡ some (record { fails = n + 1; first_fail = start; locked_till = 0 })
unfolding on_failure fail_all
count-record g key start n t few w h =
    fail_all-record g key start n 0 (t ∷ []) (omega arith) (w, tt) h ∙ ground arith

-- A key without a record that fails at these times, all in the window of the first: with fewer
-- than five failures it may go on, and with five it is refused exactly until the lockout time
-- after the last failure is over.
pub lockout :
    (g : Guard) (key : Bytes) (t : ℕ) (ts : List ℕ) (now later : ℕ)
    → lookup key g ≡ none
    → InWindow t ts
    → (length ts < 4 → (allowed (fail_all g key (t ∷ ts)) key now later).1.0 ≡ true)
      × (length ts ≡ 4
          → (allowed (fail_all g key (t ∷ ts)) key now later).1.0
            ≡ not (ltb now (last_time t ts + login_lock_duration)))
unfolding fail_all
lockout g key t [] now later h w = (
  λ few. allowed-record _ key now later _ (fresh_record g key t h) ∙ never_locked now,
  λ five. absurd (omega arith),
)
lockout g key t (u ∷ us) now later h w = (
  λ few.
      allowed-record _ key now later _ (
        fail_all-record (on_failure g key t) key t 1 0 (u ∷ us) (omega arith) w
          (fresh_record g key t h))
      ∙ never_locked now,
  λ five.
      allowed-record _ key now later _ (
        fail_all-locks (on_failure g key t) key t 1 0 u us (omega arith) w
          (fresh_record g key t h)),
)
