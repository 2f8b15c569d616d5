-- ===== src/Password.antt =====
-- loginsecurity.go: the strength of a password, and the comparison in constant time.
pub mod Strength
mod Tests
use Prim.Native.Nat.{bit_or, bit_xor}
use gateway_lite.Common.{
  Bool, Bytes, List, [], any, bytes_eq, false, if◌then◌else◌, leb, length, ltb, nat_eq, true, utf8,
  ℕ, ◌&&◌, ◌+◌, ◌==◌, ◌∷◌,
}

abbrev pub min_password_len : ℕ
min_password_len = 8

-- The blocklist.
abbrev pub weak_passwords : List Bytes
weak_passwords =
    utf8 "12345678"
    ∷ utf8 "123456789"
    ∷ utf8 "1234567890"
    ∷ utf8 "password"
    ∷ utf8 "password1"
    ∷ utf8 "passw0rd"
    ∷ utf8 "qwertyui"
    ∷ utf8 "11111111"
    ∷ utf8 "00000000"
    ∷ utf8 "abcd1234"
    ∷ utf8 "admin123"
    ∷ utf8 "iloveyou"
    ∷ utf8 "87654321"
    ∷ utf8 "1qaz2wsx"
    ∷ utf8 "qazwsxedc"
    ∷ utf8 "openp2p123"
    ∷ utf8 "administrator"
    ∷ []

abbrev pub is_lower : ℕ → Bool
is_lower c = leb b'a' c && leb c b'z'

abbrev pub is_upper : ℕ → Bool
is_upper c = leb b'A' c && leb c b'Z'

abbrev pub is_digit : ℕ → Bool
is_digit c = leb b'0' c && leb c b'9'

-- strings.ToLower as far as the blocklist can tell: the ASCII letters, and the two other
-- characters whose lower case is an ASCII letter, the Kelvin sign (0xe2 0x84 0xaa) and the capital I with
-- a dot (0xc4 0xb0). What else it changes stays outside ASCII, and no entry of the list has such bytes.
pub to_lower : Bytes → Bytes
to_lower [] = []
to_lower (a ∷ []) = (if is_upper a then a + 32 else a) ∷ []
to_lower (a ∷ b ∷ []) =
    if a == 0xc4 && b == 0xb0
    then b'i' ∷ []
    else (if is_upper a then a + 32 else a) ∷ to_lower (b ∷ [])
to_lower (a ∷ b ∷ c ∷ s) =
    if a == 0xe2 && (b == 0x84 && c == 0xaa)
    then b'k' ∷ to_lower s
    else if a == 0xc4 && b == 0xb0
    then b'i' ∷ to_lower (c ∷ s)
    else (if is_upper a then a + 32 else a) ∷ to_lower (b ∷ c ∷ s)

-- The four flags of the loop.
pub record Classes : Type 0 where
  pub lower : Bool
  pub upper : Bool
  pub digit : Bool
  pub symbol : Bool

-- One round. A character past ASCII sets the last flag, and so does each of its bytes.
see : Classes → ℕ → Classes
see s c =
    if is_lower c
    then record s { lower = true }
    else if is_upper c
    then record s { upper = true }
    else if is_digit c
    then record s { digit = true }
    else record s { symbol = true }

see_all : Classes → Bytes → Classes
see_all s [] = s
see_all s (c ∷ cs) = see_all (see s c) cs

count_true : List Bool → ℕ
count_true [] = 0
count_true (b ∷ bs) = (if b then 1 else 0) + count_true bs

abbrev none_seen : Classes
none_seen = record { lower = false; upper = false; digit = false; symbol = false }

-- The flags, in the order in which they are counted.
unfoldable pub classes : Bytes → ℕ
unfolding see_all see count_true
classes pwd =
    let s = see_all none_seen pwd in count_true (s.lower ∷ s.upper ∷ s.digit ∷ s.symbol ∷ [])

abbrev pub too_short : Bytes
too_short = utf8 "密码至少需要8个字符"

abbrev pub too_simple : Bytes
too_simple = utf8 "密码过于简单，请勿使用常见弱口令"

abbrev pub too_uniform : Bytes
too_uniform = utf8 "密码需包含大小写字母、数字、符号中至少两类"

-- weakPasswords[strings.ToLower(pwd)]
unfoldable pub is_weak : Bytes → Bool
unfolding to_lower
is_weak pwd = any (λ w. to_lower pwd == w) weak_passwords

-- Whether a password passes, and the reason if not.
unfoldable pub check_password_strength : Bytes → Bool × Bytes
check_password_strength pwd =
    if ltb (length pwd) min_password_len
    then (false, too_short)
    else if is_weak pwd
    then (false, too_simple)
    else if ltb (classes pwd) 2
    then (false, too_uniform)
    else (true, [])

-- subtle.ConstantTimeCompare: the xors of the bytes are joined, and nothing ends the loop early.
difference : ℕ → Bytes → Bytes → ℕ
difference v [] ys = v
difference v (x ∷ xs) [] = v
difference v (x ∷ xs) (y ∷ ys) = difference (bit_or v (bit_xor x y)) xs ys

unfoldable pub constant_time_equal : Bytes → Bytes → Bool
unfolding difference
constant_time_equal a b = if length a == length b then difference 0 a b == 0 else false
