-- ===== src/Version/Tests.antt =====
-- The cases of common_test.go, and the properties at concrete versions.
use gateway_lite.Common.{[], refl, utf8, ◌↔◌, ◌≡◌}
use gateway_lite.Common.Strconv.{split, parse_int}
use gateway_lite.Version.Ordered.{compare_version_lem, compare_version_asymm, compare_version_trans}
use gateway_lite.Version.{equal, greater, less, compare_version}

cases :
    (compare_version (utf8 "0.73.0.1234") (utf8 "0.73.0.1234") ≡ equal)
    × (compare_version (utf8 "0.173.0.1234") (utf8 "0.73.0.1234") ≡ greater)
    × (compare_version (utf8 "0.73.0.1234") (utf8 "0.73.0") ≡ greater)
    × (compare_version (utf8 "9.73.0.1234") (utf8 "10.73.0.1234") ≡ less)
    × (compare_version [] (utf8 "1.5.0") ≡ less)
unfolding compare_version split parse_int
cases = (refl, refl, refl, refl, refl)

newer : compare_version (utf8 "3.6.100") (utf8 "3.6.18") ≡ greater
unfolding compare_version split parse_int
newer = refl

newest : compare_version (utf8 "3.10.1") (utf8 "3.6.100") ≡ greater
unfolding compare_version split parse_int
newest = refl

compare_version_lem_example :
    (compare_version (utf8 "1.0") (utf8 "1.00") ≡ equal) ↔ (utf8 "1.0" ≡ utf8 "1.00")
compare_version_lem_example = (compare_version_lem (utf8 "1.0") (utf8 "1.00")).0

older : compare_version (utf8 "3.6.18") (utf8 "3.6.100") ≡ less
older = compare_version_asymm (utf8 "3.6.100") (utf8 "3.6.18") newer

compare_version_trans_case : compare_version (utf8 "3.10.1") (utf8 "3.6.18") ≡ greater
compare_version_trans_case =
    compare_version_trans (utf8 "3.10.1") (utf8 "3.6.100") (utf8 "3.6.18") newest newer
