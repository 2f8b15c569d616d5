-- ===== src/Version/Ordered.antt =====
-- What the three answers of `compareVersion` mean.
use gateway_lite.Common.{
  Bytes, List, [], ap, arith, bytes_beq_iff, false, inl, inr, sym, true, ◌↔◌, ◌∙◌, ◌∷◌, ◌≡◌, ◌≢◌,
  ◌⊎◌,
}
use gateway_lite.Common.Int.{ℤ, pos, negsuc, ltb_ℤ}
use gateway_lite.Common.Strconv.{split, parse_int}
use gateway_lite.Version.{equal, greater, less, walk, compare_version}

-- The first version is later: after parts of equal value it has a larger part, or it goes on
-- where the second has ended.
abbrev pub Later : List Bytes → List Bytes → Type 0
Later [] bs = ⊥
Later (a ∷ as') [] = Unit {0}
Later (a ∷ as') (b ∷ bs) =
    (ltb_ℤ (parse_int 64 b) (parse_int 64 a) ≡ true)
    ⊎ ((parse_int 64 a ≡ parse_int 64 b) × Later as' bs)

ltb_ℤ_antisym : (x y : ℤ) → ltb_ℤ x y ≡ false → ltb_ℤ y x ≡ false → x ≡ y
ltb_ℤ_antisym (pos a) (pos b) h k = ground arith
ltb_ℤ_antisym (pos a) (negsuc b) h k = ground arith
ltb_ℤ_antisym (negsuc a) (pos b) h k = ground arith
ltb_ℤ_antisym (negsuc a) (negsuc b) h k = ground arith

ltb_ℤ_irrefl : (x : ℤ) → ltb_ℤ x x ≡ false
ltb_ℤ_irrefl (pos a) = ground arith
ltb_ℤ_irrefl (negsuc a) = ground arith

ltb_ℤ_asymm : (x y : ℤ) → ltb_ℤ x y ≡ true → ltb_ℤ y x ≡ false
ltb_ℤ_asymm (pos a) (pos b) h = ground arith
ltb_ℤ_asymm (pos a) (negsuc b) h = ground arith
ltb_ℤ_asymm (negsuc a) (pos b) h = ground arith
ltb_ℤ_asymm (negsuc a) (negsuc b) h = ground arith

ltb_ℤ_trans : (x y z : ℤ) → ltb_ℤ x y ≡ true → ltb_ℤ y z ≡ true → ltb_ℤ x z ≡ true
ltb_ℤ_trans (pos a) (pos b) (pos c) h k = ground arith
ltb_ℤ_trans (negsuc a) (pos b) (pos c) h k = ground arith
ltb_ℤ_trans (negsuc a) (negsuc b) (pos c) h k = ground arith
ltb_ℤ_trans (negsuc a) (negsuc b) (negsuc c) h k = ground arith
ltb_ℤ_trans (pos a) (negsuc b) z h k = cc
ltb_ℤ_trans (pos a) (pos b) (negsuc c) h k = cc
ltb_ℤ_trans (negsuc a) (pos b) (negsuc c) h k = cc

walk-greater : (xs ys : List Bytes) → (walk xs ys ≡ greater) ↔ Later xs ys
unfolding walk
walk-greater [] ys = ground arith
walk-greater (a ∷ as') [] = ground arith
walk-greater (a ∷ as') (b ∷ bs) = ground (
  arith,
  walk-greater as' bs,
  ltb_ℤ_antisym (parse_int 64 a) (parse_int 64 b),
  ltb_ℤ_irrefl (parse_int 64 a),
)

walk-ne-equal : (xs ys : List Bytes) → walk xs ys ≢ equal
unfolding walk
walk-ne-equal [] ys = ground arith
walk-ne-equal (a ∷ as') [] = ground arith
walk-ne-equal (a ∷ as') (b ∷ bs) = ground (arith, walk-ne-equal as' bs)

-- Two versions compare equal exactly when they are the same text, the first is greater exactly
-- when the texts differ and its parts are later, and it is less in every other case.
pub compare_version_lem :
    (v w : Bytes)
    → ((compare_version v w ≡ equal) ↔ (v ≡ w))
      × ((compare_version v w ≡ greater) ↔ ((v ≢ w) × Later (split b'.' v) (split b'.' w)))
      × ((compare_version v w ≡ less) ↔ ((v ≢ w) × ¬ Later (split b'.' v) (split b'.' w)))
unfolding compare_version
compare_version_lem v w = ground (
  arith,
  bytes_beq_iff v w,
  walk-greater (split b'.' v) (split b'.' w),
  walk-ne-equal (split b'.' v) (split b'.' w),
)

Later-asymm : (xs ys : List Bytes) → Later xs ys → ¬ Later ys xs
Later-asymm [] ys h k = h
Later-asymm (a ∷ as') [] h k = k
Later-asymm (a ∷ as') (b ∷ bs) h k = ground (
  arith,
  Later-asymm as' bs,
  ltb_ℤ_asymm (parse_int 64 a) (parse_int 64 b),
  ltb_ℤ_irrefl (parse_int 64 a),
)

Later-trans : (xs ys zs : List Bytes) → Later xs ys → Later ys zs → Later xs zs
Later-trans [] ys zs h k = h
Later-trans (a ∷ as') [] zs h k = absurd k
Later-trans (a ∷ as') (b ∷ bs) [] h k = tt
Later-trans (a ∷ as') (b ∷ bs) (c ∷ cs) (inl h) (inl k) =
    inl (ltb_ℤ_trans (parse_int 64 c) (parse_int 64 b) (parse_int 64 a) k h)
Later-trans (a ∷ as') (b ∷ bs) (c ∷ cs) (inl h) (inr k) = inl (rw (← k.0) h)
Later-trans (a ∷ as') (b ∷ bs) (c ∷ cs) (inr h) (inl k) = inl (rw h.0 k)
Later-trans (a ∷ as') (b ∷ bs) (c ∷ cs) (inr h) (inr k) =
    inr (h.0 ∙ k.0, Later-trans as' bs cs h.1 k.1)

Later-ne : (xs ys : List Bytes) → Later xs ys → xs ≢ ys
Later-ne xs ys h e = Later-asymm ys ys (rw e at h) (rw e at h)

-- Where one version is greater than another, the other compares less to it.
pub compare_version_asymm :
    (v w : Bytes) → compare_version v w ≡ greater → compare_version w v ≡ less
compare_version_asymm v w h =
    let g = (compare_version_lem v w).1.0 h in
    (compare_version_lem w v).2.1 (λ e. g.0 (sym e), Later-asymm _ _ g.1)

-- Greater than a greater version is greater.
pub compare_version_trans :
    (u v w : Bytes)
    → compare_version u v ≡ greater
    → compare_version v w ≡ greater
    → compare_version u w ≡ greater
compare_version_trans u v w h k =
    let g = (compare_version_lem u v).1.0 h in
    let l = (compare_version_lem v w).1.0 k in
    let t = Later-trans (split b'.' u) (split b'.' v) (split b'.' w) g.1 l.1 in
    (compare_version_lem u w).1.1 (λ e. Later-ne _ _ t (ap (split b'.') e), t)
