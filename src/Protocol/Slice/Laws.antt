-- ===== src/Protocol/Slice/Laws.antt =====
-- What the slice expressions read of a message that is long enough.
use gateway_lite.Common.{
  List, [], ap, arith, drop, length, length-append, refl, some, suc, take, zero, ℕ, ◌++◌, ◌∷◌, ◌≡◌,
  ◌≤◌,
}
use gateway_lite.Protocol.Slice.{Slice, slice_to, slice_range, slice_from}

pub take-append_le {ℓ} :
    {A : Type ℓ} (n : ℕ) (xs ys : List A) → n ≤ length xs → take n (xs ++ ys) ≡ take n xs
take-append_le zero xs ys h = refl
take-append_le (suc n) [] ys h = absurd (omega arith)
take-append_le (suc n) (x ∷ xs) ys h = ap (◌∷◌ x) (take-append_le n xs ys (omega arith))

pub slice_to-long : (n : ℕ) (s : Slice) → n ≤ length s.bytes → slice_to n s ≡ some (take n s.bytes)
unfolding slice_to
slice_to-long n s h =
    ground (arith, take-append_le n s.bytes s.spare, length-append s.bytes s.spare)

pub slice_range-long :
    (m n : ℕ) (s : Slice) → n ≤ length s.bytes → slice_range m n s ≡ some (drop m (take n s.bytes))
unfolding slice_range
slice_range-long m n s h =
    ground (arith, take-append_le n s.bytes s.spare, length-append s.bytes s.spare)

pub slice_from-long :
    (m : ℕ) (s : Slice) → m ≤ length s.bytes → slice_from m s ≡ some (drop m s.bytes)
unfolding slice_from
slice_from-long m s h = ground arith
