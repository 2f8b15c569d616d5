-- ===== src/Common/Strconv.antt =====
-- What the program uses of strconv and strings, on bytes. An error is dropped by every caller, so
-- the value that comes with it is what the functions return.
pub mod Decimal
use Prim.Native.Nat.{ℕ, zero, suc, ◌+◌, ◌-◌, ◌*◌, ◌/◌, ◌%◌, ◌^◌}
use mathlib.Core.Path.{◌≡◌, refl}
use mathlib.Core.Bool.{Bool, ◌&&◌}
use mathlib.Core.List.{List, [], ◌∷◌}
use gateway_lite.Common.Boolean.{ltb, leb, nat_beq, if◌then◌else◌}
use gateway_lite.Common.Texts.{Bytes, utf8}
use gateway_lite.Common.Int.{ℤ, pos, negsuc, sub_ℕ, neg_ℕ}

pub is_digit : ℕ → Bool
is_digit c = leb 48 c && leb c 57

-- The loop of ParseUint: a value past the largest ends it there.
pub scan_digits : ℕ → ℕ → Bytes → ℕ
scan_digits max n [] = n
scan_digits max n (c ∷ s) =
    let m = n * 10 + (c - 48) in
    let rest = scan_digits max m s in if is_digit c then (if ltb max m then max else rest) else 0

-- strconv.ParseUint(s, 10, bits)
unfoldable pub parse_uint : ℕ → Bytes → ℕ
unfolding scan_digits is_digit
parse_uint bits [] = 0
parse_uint bits (c ∷ s) = scan_digits (2 ^ bits - 1) 0 (c ∷ s)

-- The magnitude, held to the range of a signed integer of that many bits.
pub signed : ℕ → Bool → ℕ → ℤ
signed bits negative n =
    if negative
    then (if ltb (2 ^ (bits - 1)) n then neg_ℕ (2 ^ (bits - 1)) else neg_ℕ n)
    else (if leb (2 ^ (bits - 1)) n then pos (2 ^ (bits - 1) - 1) else pos n)

-- strconv.ParseInt(s, 10, bits), and Atoi at 64 bits
unfoldable pub parse_int : ℕ → Bytes → ℤ
unfolding parse_uint signed
parse_int bits [] = pos 0
parse_int bits (c ∷ s) =
    if nat_beq c b'-'
    then signed bits Bool.true (parse_uint bits s)
    else if nat_beq c b'+'
    then signed bits Bool.false (parse_uint bits s)
    else signed bits Bool.false (parse_uint bits (c ∷ s))

-- The digits of a number in front of a text; a 64-bit number has at most 20.
pub put_digits : ℕ → ℕ → Bytes → Bytes
put_digits zero n out = out
put_digits (suc k) n out =
    let rest = put_digits k (n / 10) ((48 + n % 10) ∷ out) in
    if ltb n 10 then (48 + n) ∷ out else rest

-- strconv.FormatUint(n, 10), and "%d" of a number that is not negative
unfoldable pub format_uint : ℕ → Bytes
unfolding put_digits
format_uint n = put_digits 20 n []

-- "%d"
unfoldable pub format_int : ℤ → Bytes
unfolding format_uint
format_int (pos n) = format_uint n
format_int (negsuc n) = b'-' ∷ format_uint (n + 1)

-- One more byte at the front of the first part.
pub push_first : ℕ → List Bytes → List Bytes
push_first c [] = (c ∷ []) ∷ []
push_first c (p ∷ ps) = (c ∷ p) ∷ ps

-- strings.Split(s, sep) at a separator of one byte
unfoldable pub split : ℕ → Bytes → List Bytes
unfolding push_first
split sep [] = [] ∷ []
split sep (c ∷ s) = let rest = split sep s in if nat_beq c sep then [] ∷ rest else push_first c rest

-- strings.Count(s, sep) at a separator of one byte
unfoldable pub count : ℕ → Bytes → ℕ
count sep [] = 0
count sep (c ∷ s) = (if nat_beq c sep then 1 else 0) + count sep s

parse_cases :
    (parse_int 64 (utf8 "-12") ≡ negsuc 11)
    × (parse_int 32 (utf8 "99999999999") ≡ pos (2 ^ 31 - 1))
    × (parse_int 64 (utf8 "1x") ≡ pos 0)
    × (parse_uint 64 (utf8 "18446744073709551616") ≡ 2 ^ 64 - 1)
unfolding parse_int
parse_cases = (refl, refl, refl, refl)
