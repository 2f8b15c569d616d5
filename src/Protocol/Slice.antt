-- ===== src/Protocol/Slice.antt =====
-- A byte slice as Go has it: its bytes, and the bytes of the array behind it past its length.
-- A slice expression with an upper bound is checked against the capacity, and reads those bytes;
-- one without is checked against the length. `none` is the panic.
pub mod Laws
use gateway_lite.Common.{
  Bytes, Option, bytes_eq, drop, if◌then◌else◌, length, ltb, nat_eq, none, some, take, ℕ, ◌++◌,
}

pub record Slice : Type 0 where
  pub bytes : Bytes
  pub spare : Bytes

-- s[:n]
unfoldable pub slice_to : ℕ → Slice → Option Bytes
slice_to n s =
    if ltb (length (s.bytes ++ s.spare)) n then none else some (take n (s.bytes ++ s.spare))

-- s[m:n], where m is at most n
unfoldable pub slice_range : ℕ → ℕ → Slice → Option Bytes
slice_range m n s =
    if ltb (length (s.bytes ++ s.spare)) n
    then none
    else some (drop m (take n (s.bytes ++ s.spare)))

-- s[m:]
unfoldable pub slice_from : ℕ → Slice → Option Bytes
slice_from m s = if ltb (length s.bytes) m then none else some (drop m s.bytes)
