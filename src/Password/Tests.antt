-- ===== src/Password/Tests.antt =====
-- Passwords that pass and fail, and the properties at concrete passwords.
use gateway_lite.Common.{
  Member, [], bytes_eq, false, length, nat_eq, refl, true, utf8, ◌↔◌, ◌≡◌, ◌≤◌,
}
use gateway_lite.Password.{
  check_password_strength, constant_time_equal, is_weak, to_lower, classes, too_short, too_simple,
  too_uniform, min_password_len, weak_passwords,
}
use gateway_lite.Password.Strength.{check_password_strength_lem, constant_time_equal_iff, kinds}

verdicts :
    (check_password_strength (utf8 "abc1") ≡ (false, too_short))
    × (check_password_strength (utf8 "Passw0rd") ≡ (false, too_simple))
    × (check_password_strength (utf8 "lettersonly") ≡ (false, too_uniform))
    × (check_password_strength (utf8 "letters0nly") ≡ (true, []))
unfolding check_password_strength is_weak to_lower classes
verdicts = (refl, refl, refl, refl)

check_password_strength_lem_example :
    (((check_password_strength (utf8 "letters0nly")).0 ≡ true) ↔ (
      (min_password_len ≤ length (utf8 "letters0nly"))
      × (¬ Member (to_lower (utf8 "letters0nly")) weak_passwords)
      × (2 ≤ kinds (utf8 "letters0nly"))))
    × (((check_password_strength (utf8 "letters0nly")).0 ≡ true)
        ↔ ((check_password_strength (utf8 "letters0nly")).1 ≡ []))
check_password_strength_lem_example = check_password_strength_lem (utf8 "letters0nly")

constant_time_equal_iff_case :
    (constant_time_equal (utf8 "letters0nly") (utf8 "letters0nlx") ≡ true)
    ↔ (utf8 "letters0nly" ≡ utf8 "letters0nlx")
constant_time_equal_iff_case = constant_time_equal_iff (utf8 "letters0nly") (utf8 "letters0nlx")
