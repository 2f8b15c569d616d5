-- ===== src/LoginGuard/Tests.antt =====
-- The properties of the guard at concrete values.
use gateway_lite.Common.{
  Bytes, List, [], arith, bytes_eq, false, nat_eq, ne_of_beq, refl, utf8, ℕ, ◌*◌, ◌∷◌, ◌≡◌, ◌+◌,
}
use gateway_lite.Common.Int.{pos, negsuc}
use gateway_lite.Clock.{second, minute}
use gateway_lite.LoginGuard.{Guard, allowed, on_failure}
use gateway_lite.LoginGuard.Lockout.{fail_all, lockout}
use gateway_lite.LoginGuard.Keys.{allowed-on_failure_ne}
use gateway_lite.LoginGuard.Invariant.{Call, Waits, fails, run, step, run-wait}

abbrev key : Bytes
key = utf8 "10.0.0.1|somebody"

abbrev other : Bytes
other = utf8 "10.0.0.2|somebody"

-- Four more failures, ten seconds apart.
abbrev times : List ℕ
times = (110 * second) ∷ (120 * second) ∷ (130 * second) ∷ (140 * second) ∷ []

lockout_example :
    (allowed (fail_all [] key ((100 * second) ∷ times)) key (200 * second) (200 * second)).1.0
    ≡ false
lockout_example =
    (lockout [] key (100 * second) times (200 * second) (200 * second) refl (omega arith)).1 refl

locked : Guard
locked = fail_all [] key ((100 * second) ∷ times)

refused_for : (allowed locked key (200 * second) (200 * second)).1 ≡ (false, pos 541)
unfolding locked fail_all on_failure allowed
refused_for = refl

allowed-on_failure_ne_example :
    (allowed (on_failure [] key second) other minute minute).1 ≡ (allowed [] other minute minute).1
allowed-on_failure_ne_example =
    allowed-on_failure_ne [] key other second minute minute tt (ne_of_beq key other refl)
      (omega arith)

abbrev calls : List (ℕ × Call)
calls =
    (second, fails key)
    ∷ (second, fails key)
    ∷ (second, fails key)
    ∷ (second, fails key)
    ∷ (second, fails key)
    ∷ []

refused_calls : (allowed (run [] calls) key second (second + 3)).1.0 ≡ false
unfolding run step on_failure allowed
refused_calls = refl

-- A second reading of the clock well after the end of the lockout.
late_wait : (allowed (run [] calls) key second (700 * second)).1.1 ≡ negsuc 97
unfolding run step on_failure allowed
late_wait = refl

run-wait_example : Waits (run [] calls) key second (second + 3) (700 * second)
run-wait_example =
    run-wait calls key (second + 3) (700 * second) (omega arith) (omega arith) refused_calls
