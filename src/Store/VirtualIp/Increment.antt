-- ===== src/Store/VirtualIp/Increment.antt =====
-- `incIP` adds one, modulo the number of addresses.
use native.Mathlib.Nat.{pow-suc, mod-eq_of_lt, mod_self}
use native.Mathlib.Decide.{ℕ_discrete}
use gateway_lite.Common.{
  AllBytes, List, [], ap, arith, bytes_eq, false, inl, inr, length, nat_eq, refl, suc, sym, true, ℕ,
  ◌%◌, ◌*◌, ◌+◌, ◌<◌, ◌^◌, ◌∷◌, ◌≡◌, ◌⊎◌,
}
use gateway_lite.Store.VirtualIp.{increment, inc_ip}

-- The number that an address stands for, and how many there are of that length.
pub ip_value : List ℕ → ℕ
ip_value [] = 0
ip_value (b ∷ bs) = b * 256 ^ length bs + ip_value bs

pub ip_value-lt : (ip : List ℕ) → AllBytes ip → ip_value ip < 256 ^ length ip
unfolding ip_value
ip_value-lt [] h = omega arith
ip_value-lt (b ∷ bs) h = grind (arith, pow-suc 256 (length bs), ip_value-lt bs h.1)

-- Either no byte wrapped past the front and the value grew by one, or all bytes were 255.
increment_lem :
    (ip : List ℕ)
    → AllBytes ip
    → (length (increment ip).0 ≡ length ip)
      × AllBytes (increment ip).0
      × (((increment ip).1 ≡ false) × (ip_value (increment ip).0 ≡ ip_value ip + 1)
          ⊎ ((increment ip).1 ≡ true)
            × (ip_value (increment ip).0 ≡ 0)
            × (ip_value ip + 1 ≡ 256 ^ length ip))
unfolding increment ip_value
increment_lem [] h = (refl, tt, inr (refl, refl, omega arith))
increment_lem (b ∷ bs) h = elim (increment_lem bs h.1).2 [
  | inl (stop, e) ↦
      let r = increment_lem bs h.1 in
      rw (stop, increment) (ap suc r.0, (h.0, r.1), inl (refl, rw (r.0, e) (omega arith)))
  | inr (y, z, top) ↦
      let r = increment_lem bs h.1 in
      elim (ℕ_discrete b 255) [
        | yes last ↦
            rw (y, increment)
              (
                ap suc r.0,
                (omega arith, r.1),
                inr (
                  ground arith,
                  rw (last, z) (omega arith),
                  rw last (omega (arith, pow-suc 256 (length bs))),
                ),
              )
        | no more ↦
            let step : (b + 1) % 256 ≡ b + 1 = omega arith in
            rw (y, increment)
              (ap suc r.0, (omega arith, r.1), inl (ground arith, rw (step, r.0, z) (grind arith)))
      ]
]

-- On four bytes, and on any number of them, `incIP` is adding one and wrapping around.
pub ip_value-inc_ip :
    (ip : List ℕ)
    → AllBytes ip
    → (length (inc_ip ip) ≡ length ip)
      × AllBytes (inc_ip ip)
      × (ip_value (inc_ip ip) ≡ (ip_value ip + 1) % 256 ^ length ip)
unfolding inc_ip
ip_value-inc_ip ip h =
    let r = increment_lem ip h in
    (
      r.0,
      r.1,
      elim r.2 [
        | inl (stop, e) ↦
            let small : ip_value ip + 1 < 256 ^ length ip =
              rw (← e, ← r.0) (ip_value-lt (increment ip).0 r.1) in
            rw e (sym (mod-eq_of_lt small))
        | inr (y, z, top) ↦ rw (z, top) (sym (mod_self (256 ^ length ip)))
      ],
    )
