-- ===== src/Version.antt =====
-- common.go: `compareVersion` and `parseMajorVer`.
pub mod Ordered
mod Tests
use gateway_lite.Common.{Bytes, List, [], bytes_eq, if◌then◌else◌, nat_eq, ◌==◌, ◌∷◌}
use gateway_lite.Common.Int.{ℤ, pos, ltb_ℤ}
use gateway_lite.Common.Strconv.{split, parse_int}

-- The constants EQUAL, GREATER and LESS.
pub data Comparison : Type 0 where
  equal greater less : Comparison

-- The loop over the parts of the first version.
walk : List Bytes → List Bytes → Comparison
walk [] bs = less
walk (a ∷ as') [] = greater
walk (a ∷ as') (b ∷ bs) =
    let x = parse_int 64 a in
    let y = parse_int 64 b in
    let rest = walk as' bs in if ltb_ℤ y x then greater else if ltb_ℤ x y then less else rest

unfoldable pub compare_version : Bytes → Bytes → Comparison
unfolding walk
compare_version v1 v2 = if v1 == v2 then equal else walk (split b'.' v1) (split b'.' v2)

head_version : List Bytes → ℤ
head_version [] = pos 0
head_version (p ∷ ps) = parse_int 32 p

unfoldable pub parse_major_ver : Bytes → ℤ
unfolding head_version
parse_major_ver v = head_version (split b'.' v)
