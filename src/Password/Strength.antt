-- ===== src/Password/Strength.antt =====
-- The passwords that pass.
use gateway_lite.Common.{
  Bool, Bool-cases, Bytes, Member, [], any, any-Member, ap, arith, bytes_eq, false, if◌then◌else◌,
  inl, inr, length, nat_beq_iff, nat_eq, not, true, ℕ, ◌&&◌, ◌+◌, ◌==◌, ◌↔◌, ◌∙◌, ◌∷◌, ◌≡◌, ◌≤◌,
}
use Prim.Native.Nat.{bit_or, bit_xor}
use gateway_lite.Common.Bits.{bit_or-eq-zero, bit_xor-eq-zero}
use gateway_lite.Password.{
  Classes, is_lower, is_upper, is_digit, see, see_all, classes, to_lower, weak_passwords, none_seen,
  check_password_strength, is_weak, min_password_len, constant_time_equal, difference,
}

abbrev or_bool : Bool → Bool → Bool
or_bool true b = true
or_bool false b = b

abbrev is_symbol : ℕ → Bool
is_symbol c = not (is_lower c) && (not (is_upper c) && not (is_digit c))

-- The loop finds each class that has a member.
see_all-any :
    (s : Classes) (pwd : Bytes)
    → see_all s pwd ≡ record {
      lower = or_bool s.lower (any is_lower pwd);
      upper = or_bool s.upper (any is_upper pwd);
      digit = or_bool s.digit (any is_digit pwd);
      symbol = or_bool s.symbol (any is_symbol pwd);
    }
unfolding see_all see
see_all-any s [] = ground arith
see_all-any s (c ∷ cs) = see_all-any (see s c) cs ∙ ground arith

-- How many of the four classes have a member in the password.
pub kinds : Bytes → ℕ
kinds pwd =
    (if any is_lower pwd then 1 else 0)
    + ((if any is_upper pwd then 1 else 0)
        + ((if any is_digit pwd then 1 else 0) + (if any is_symbol pwd then 1 else 0)))

classes-eq-kinds : (pwd : Bytes) → classes pwd ≡ kinds pwd
unfolding classes kinds
classes-eq-kinds pwd = rw (see_all-any none_seen pwd) (ground arith)

is_weak-Member : (pwd : Bytes) → (is_weak pwd ≡ true) ↔ Member (to_lower pwd) weak_passwords
unfolding is_weak
is_weak-Member pwd = any-Member (to_lower pwd) weak_passwords

strength_cases :
    (pwd : Bytes)
    → (((check_password_strength pwd).0 ≡ true)
        ↔ ((min_password_len ≤ length pwd) × (is_weak pwd ≡ false) × (2 ≤ classes pwd)))
      × (((check_password_strength pwd).0 ≡ true) ↔ ((check_password_strength pwd).1 ≡ []))
unfolding check_password_strength
strength_cases pwd = ground arith

-- A password passes exactly when it has at least eight bytes, its lower case is not in the
-- blocklist, and at least two of the four classes of characters occur in it; a reason is given
-- exactly when it does not pass.
pub check_password_strength_lem :
    (pwd : Bytes)
    → (((check_password_strength pwd).0 ≡ true) ↔ (
        (min_password_len ≤ length pwd)
        × (¬ Member (to_lower pwd) weak_passwords)
        × (2 ≤ kinds pwd)))
      × (((check_password_strength pwd).0 ≡ true) ↔ ((check_password_strength pwd).1 ≡ []))
check_password_strength_lem pwd =
    let weak = is_weak-Member pwd in
    let c = strength_cases pwd in
    (
      (
        λ h. let r = c.0.0 h in (r.0, λ m. cc (r.1, weak.1 m), rw (← classes-eq-kinds pwd) r.2),
        λ h. c.0.1 (
          h.0,
          elim (Bool-cases (is_weak pwd)) [ inl y ↦ absurd (h.1 (weak.0 y)) | inr e ↦ e ],
          rw (classes-eq-kinds pwd) h.2,
        ),
      ),
      c.1,
    )

difference-eq-zero :
    (v : ℕ) (xs ys : Bytes)
    → length xs ≡ length ys
    → (difference v xs ys ≡ 0) ↔ ((v ≡ 0) × (xs ≡ ys))
unfolding difference
difference-eq-zero v [] [] h = ground arith
difference-eq-zero v [] (y ∷ ys) h = absurd (omega arith)
difference-eq-zero v (x ∷ xs) [] h = absurd (omega arith)
difference-eq-zero v (x ∷ xs) (y ∷ ys) h = ground (
  arith,
  difference-eq-zero (bit_or v (bit_xor x y)) xs ys (omega arith),
  bit_or-eq-zero v (bit_xor x y),
  bit_xor-eq-zero x y,
)

-- The comparison in constant time finds exactly the equal texts.
pub constant_time_equal_iff : (a b : Bytes) → (constant_time_equal a b ≡ true) ↔ (a ≡ b)
unfolding constant_time_equal
constant_time_equal_iff a b = elim (Bool-cases (length a == length b)) [
  | inl y ↦ rw y (ground (arith, difference-eq-zero 0 a b ((nat_beq_iff _ _).0 y)))
  | inr n ↦ rw n (λ e. cc, λ e. cc (n, (nat_beq_iff _ _).1 (ap length e)))
]
