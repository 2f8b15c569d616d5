-- ===== src/Common/Strconv/Decimal.antt =====
-- A printed number parses back.
use Prim.Native.Nat.{ℕ, zero, suc, ◌+◌, ◌-◌, ◌/◌, ◌%◌, ◌^◌, ◌≤◌, ◌<◌}
use native.Mathlib.Nat.{pow-suc}
use mathlib.Core.Path.{◌≡◌, refl, ◌∙◌}
use mathlib.Core.List.{[], ◌∷◌}
use mathlib.Core.Logic.{◌≢◌, inl, inr}
use native.Mathlib.Omega.{arith}
use gateway_lite.Common.Boolean.{ltb, Bool-cases}
use gateway_lite.Common.Texts.{Bytes}
use gateway_lite.Common.Strconv.{scan_digits, is_digit, put_digits, format_uint, parse_uint}

scan_digits-put_digits :
    (max k n : ℕ) (out : Bytes)
    → n ≤ max
    → n < 10 ^ suc k
    → scan_digits max 0 (put_digits (suc k) n out) ≡ scan_digits max n out
unfolding scan_digits put_digits is_digit
scan_digits-put_digits max zero n out h lt = ground (arith, pow-suc 10 0)
scan_digits-put_digits max (suc k) n out h lt = elim (Bool-cases (ltb n 10)) [
  | inl small ↦ ground arith
  | inr large ↦ rw large (
      scan_digits-put_digits max k (n / 10) ((48 + n % 10) ∷ out) (omega arith)
        (omega (arith, pow-suc 10 (suc k)))
      ∙ ground arith)
]

put_digits-ne-nil : (k n : ℕ) (out : Bytes) → put_digits (suc k) n out ≢ []
unfolding put_digits
put_digits-ne-nil zero n out = ground arith
put_digits-ne-nil (suc k) n out = ground (arith, put_digits-ne-nil k (n / 10) ((48 + n % 10) ∷ out))

parse_uint-scan_digits :
    (bits : ℕ) (s : Bytes) → s ≢ [] → parse_uint bits s ≡ scan_digits (2 ^ bits - 1) 0 s
unfolding parse_uint
parse_uint-scan_digits bits [] h = absurd (h refl)
parse_uint-scan_digits bits (c ∷ s) h = refl

pub parse_uint-format_uint : (n : ℕ) → n < 2 ^ 64 → parse_uint 64 (format_uint n) ≡ n
unfolding format_uint scan_digits
parse_uint-format_uint n h =
    rw (parse_uint-scan_digits 64 (put_digits 20 n []) (put_digits-ne-nil 19 n []))
      (scan_digits-put_digits (2 ^ 64 - 1) 19 n [] (omega arith) (omega arith))
