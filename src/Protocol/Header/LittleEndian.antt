-- ===== src/Protocol/Header/LittleEndian.antt =====
-- Little-endian numbers: the two directions undo one another.
use native.Mathlib.Nat.{pow-suc}
use gateway_lite.Common.{
  AllBytes, Bytes, [], ap, arith, length, refl, suc, zero, ℕ, ◌/◌, ◌<◌, ◌^◌, ◌∷◌, ◌≡◌,
}
use gateway_lite.Protocol.Header.{le_bytes, le_value}

pub length-le_bytes : (k n : ℕ) → length (le_bytes k n) ≡ k
unfolding le_bytes
length-le_bytes zero n = refl
length-le_bytes (suc k) n = ap suc (length-le_bytes k (n / 256))

pub AllBytes-le_bytes : (k n : ℕ) → AllBytes (le_bytes k n)
unfolding le_bytes
AllBytes-le_bytes zero n = tt
AllBytes-le_bytes (suc k) n = (omega arith, AllBytes-le_bytes k (n / 256))

-- Every number comes back modulo 256 ^ k.
pub le_value-le_bytes : (k n : ℕ) → n < 256 ^ k → le_value (le_bytes k n) ≡ n
unfolding le_bytes le_value
le_value-le_bytes zero n h = omega arith
le_value-le_bytes (suc k) n h =
    omega (arith, le_value-le_bytes k (n / 256) (omega (arith, pow-suc 256 k)))

pub le_bytes-le_value : (bs : Bytes) → AllBytes bs → le_bytes (length bs) (le_value bs) ≡ bs
unfolding le_bytes le_value
le_bytes-le_value [] h = refl
le_bytes-le_value (b ∷ bs) h = ground (arith, le_bytes-le_value bs h.1)
