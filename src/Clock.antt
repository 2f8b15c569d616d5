-- ===== src/Clock.antt =====
-- Times: nanoseconds since the zero time, as time.Time counts them, and the seconds of Unix.
use gateway_lite.Common.{Bool, bytes_eq, nat_eq, ℕ, ◌*◌, ◌-◌, ◌/◌, ◌^◌}

abbrev pub second : ℕ
second = 10 ^ 9

abbrev pub minute : ℕ
minute = 60 * second

abbrev pub hour : ℕ
hour = 60 * minute

abbrev pub unix_epoch : ℕ
unix_epoch = 62135596800

-- time.Now().Unix(), for a time after 1970
abbrev pub unix : ℕ → ℕ
unix now = now / second - unix_epoch

-- totp.TOTP at RelayTOTPStep, of another module: `verify token secret seconds` and
-- `gen secret seconds`.
pub record Totp : Type 0 where
  pub verify : ℕ → ℕ → ℕ → Bool
  pub gen : ℕ → ℕ → ℕ
