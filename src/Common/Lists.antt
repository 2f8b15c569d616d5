-- ===== src/Common/Lists.antt =====
-- Lists measured and indexed by native numbers, and predicates on lists by recursion.
use Prim.Native.Nat.{ℕ, zero, suc, ◌+◌, ◌-◌, ◌≤◌, ◌<◌, min}
use native.Mathlib.Nat.{zero-add, suc-add}
use mathlib.Core.Path.{◌≡◌, refl, ap}
use mathlib.Core.Logic.{◌⊎◌, inl, inr, ◌↔◌}
use mathlib.Core.List.{List, [], ◌∷◌, ◌++◌, map, Permᴰ}
use mathlib.Core.List.Permᴰ
use mathlib.Core.Option.{Option, none, some}
use mathlib.Core.Bool.{Bool, true, false}
use native.Mathlib.Omega.{arith}
use gateway_lite.Common.Boolean.{if◌then◌else◌, Bool-cases}

module _ {ℓ} {A : Type ℓ} where
  abbrev pub length : List A → ℕ
  length [] = 0
  length (x ∷ xs) = suc (length xs)

  abbrev pub get_or : List A → ℕ → A → A
  get_or [] i d = d
  get_or (x ∷ xs) zero d = x
  get_or (x ∷ xs) (suc i) d = get_or xs i d

  abbrev pub take : ℕ → List A → List A
  take zero xs = []
  take (suc n) [] = []
  take (suc n) (x ∷ xs) = x ∷ take n xs

  abbrev pub drop : ℕ → List A → List A
  drop zero xs = xs
  drop (suc n) [] = []
  drop (suc n) (x ∷ xs) = drop n xs

  abbrev pub replicate : ℕ → A → List A
  replicate zero a = []
  replicate (suc n) a = a ∷ replicate n a

  -- The elements that pass a test.
  abbrev pub keep : (A → Bool) → List A → List A
  keep p [] = []
  keep p (x ∷ xs) = if p x then x ∷ keep p xs else keep p xs

  -- The first element that passes a test.
  abbrev pub find_first : (A → Bool) → List A → Option A
  find_first p [] = none
  find_first p (x ∷ xs) = if p x then some x else find_first p xs

  abbrev pub any : (A → Bool) → List A → Bool
  any p [] = false
  any p (x ∷ xs) = if p x then true else any p xs

module _ {ℓ} {A : Type ℓ} where
  pub length-append : (xs ys : List A) → length (xs ++ ys) ≡ length xs + length ys
  length-append [] ys = omega arith
  length-append (x ∷ xs) ys = omega (arith, length-append xs ys)

  pub length-replicate : (n : ℕ) (a : A) → length (replicate n a) ≡ n
  length-replicate zero a = refl
  length-replicate (suc n) a = ap suc (length-replicate n a)

  pub length-take : (n : ℕ) (xs : List A) → length (take n xs) ≡ min n (length xs)
  length-take zero xs = omega arith
  length-take (suc n) [] = omega arith
  length-take (suc n) (x ∷ xs) = omega (arith, length-take n xs)

  pub length-drop : (n : ℕ) (xs : List A) → length (drop n xs) ≡ length xs - n
  length-drop zero xs = omega arith
  length-drop (suc n) [] = omega arith
  length-drop (suc n) (x ∷ xs) = omega (arith, length-drop n xs)

  pub take-append-drop : (n : ℕ) (xs : List A) → take n xs ++ drop n xs ≡ xs
  take-append-drop zero xs = refl
  take-append-drop (suc n) [] = refl
  take-append-drop (suc n) (x ∷ xs) = ap (◌∷◌ x) (take-append-drop n xs)

  pub take-append : (xs ys : List A) → take (length xs) (xs ++ ys) ≡ xs
  take-append [] ys = refl
  take-append (x ∷ xs) ys = ap (◌∷◌ x) (take-append xs ys)

  pub drop-append : (xs ys : List A) → drop (length xs) (xs ++ ys) ≡ ys
  drop-append [] ys = refl
  drop-append (x ∷ xs) ys = drop-append xs ys

  pub take-append_add : (k : ℕ) (xs ys : List A) → take (length xs + k) (xs ++ ys) ≡ xs ++ take k ys
  take-append_add k [] ys = rw (zero-add k)
  take-append_add k (x ∷ xs) ys = rw (suc-add (length xs) k) (ap (◌∷◌ x) (take-append_add k xs ys))

  pub drop-append_add : (k : ℕ) (xs ys : List A) → drop (length xs + k) (xs ++ ys) ≡ drop k ys
  drop-append_add k [] ys = rw (zero-add k)
  drop-append_add k (x ∷ xs) ys = rw (suc-add (length xs) k) (drop-append_add k xs ys)

  pub get_or-append :
      (k : ℕ) (xs ys : List A) (d : A) → get_or (xs ++ ys) (length xs + k) d ≡ get_or ys k d
  get_or-append k [] ys d = rw (zero-add k)
  get_or-append k (x ∷ xs) ys d = rw (suc-add (length xs) k) (get_or-append k xs ys d)

  pub get_or-replicate :
      (n i : ℕ) (a : A) (ys : List A) (d : A) → i < n → get_or (replicate n a ++ ys) i d ≡ a
  get_or-replicate zero i a ys d h = absurd (omega arith)
  get_or-replicate (suc n) zero a ys d h = refl
  get_or-replicate (suc n) (suc i) a ys d h = get_or-replicate n i a ys d (omega arith)

  pub take-replicate : (n m : ℕ) (a : A) → n ≤ m → take n (replicate m a) ≡ replicate n a
  take-replicate zero m a h = refl
  take-replicate (suc n) zero a h = absurd (omega arith)
  take-replicate (suc n) (suc m) a h = ap (◌∷◌ a) (take-replicate n m a (omega arith))

  pub take_all : (n : ℕ) (xs : List A) → length xs ≤ n → take n xs ≡ xs
  take_all zero [] h = refl
  take_all zero (x ∷ xs) h = absurd (omega arith)
  take_all (suc n) [] h = refl
  take_all (suc n) (x ∷ xs) h = ap (◌∷◌ x) (take_all n xs (omega arith))

module _ {ℓ κ} {A : Type ℓ} (P : A → Type κ) where
  abbrev pub All : List A → Type κ
  All [] = Unit
  All (x ∷ xs) = P x × All xs

module _ {A : Type 0} where
  -- Membership with its place, which clauses can take apart.
  abbrev pub Member : A → List A → Type 0
  Member a [] = ⊥
  Member a (x ∷ xs) = (a ≡ x) ⊎ Member a xs

  pub All-Member : (P : A → Type 0) (l : List A) {a : A} → All P l → Member a l → P a
  All-Member P [] h m = absurd m
  All-Member P (x ∷ xs) h (inl e) = rw e h.0
  All-Member P (x ∷ xs) h (inr m) = All-Member P xs h.1 m

  pub Member-All : (P : A → Type 0) (l : List A) → ((a : A) → Member a l → P a) → All P l
  Member-All P [] h = tt
  Member-All P (x ∷ xs) h = (h x (inl refl), Member-All P xs (λ a m. h a (inr m)))

  pub All-append : (P : A → Type 0) (l m : List A) → All P l → All P m → All P (l ++ m)
  All-append P [] m h k = k
  All-append P (x ∷ l) m (y, h) k = (y, All-append P l m h k)

  pub All-perm : (P : A → Type 0) {l m : List A} → Permᴰ l m → All P l → All P m
  All-perm P Permᴰ.nil h = tt
  All-perm P (Permᴰ.cons e d) h = (rw (← e) h.0, All-perm P d h.1)
  All-perm P (Permᴰ.swap e f) h = (rw (← f) h.1.0, (rw (← e) h.0, h.1.1))
  All-perm P (Permᴰ.trans d e) h = All-perm P e (All-perm P d h)

  pub Member-perm : {l m : List A} (a : A) → Permᴰ l m → Member a l → Member a m
  Member-perm {l} {m} a d h =
      All-Member (λ x. Member x m) l
        (All-perm (λ x. Member x m) (Permᴰ.symm d) (Member-All (λ x. Member x m) m (λ x k. k))) h

  pub Member-append_left : (a : A) (xs ys : List A) → Member a xs → Member a (xs ++ ys)
  Member-append_left a [] ys m = absurd m
  Member-append_left a (x ∷ xs) ys (inl e) = inl e
  Member-append_left a (x ∷ xs) ys (inr m) = inr (Member-append_left a xs ys m)

  -- What a search returns passes the test and is in the list.
  pub find_first-Member :
      (p : A → Bool) (l : List A) {a : A} → find_first p l ≡ some a → (p a ≡ true) × Member a l
  find_first-Member p [] h = cc
  find_first-Member p (x ∷ xs) {a} h = elim (Bool-cases (p x)) [
    | inl y ↦ let e : a ≡ x = ground arith in (rw e y, inl e)
    | inr n ↦ let r = find_first-Member p xs (rw n at h) in (r.0, inr r.1)
  ]

  -- A search that finds nothing: no element passes the test.
  pub find_first-none :
      (p : A → Bool) (l : List A) → find_first p l ≡ none → All (λ x. p x ≡ false) l
  find_first-none p [] h = tt
  find_first-none p (x ∷ xs) h = elim (Bool-cases (p x)) [
    | inl y ↦ cc (rw y at h)
    | inr n ↦ (n, find_first-none p xs (rw n at h))
  ]

  pub Member-keep :
      (p : A → Bool) (l : List A) (a : A) → Member a (keep p l) ↔ (Member a l × (p a ≡ true))
  Member-keep p [] a = (λ m. absurd m, λ m. m.0)
  Member-keep p (x ∷ xs) a = elim (Bool-cases (p x)) [
    | inl y ↦ rw y (
      λ m. elim m [
        | inl e ↦ (inl e, rw e y)
        | inr k ↦ (inr ((Member-keep p xs a).0 k).0, ((Member-keep p xs a).0 k).1)
      ],
      λ m. elim m.0 [ inl e ↦ inl e | inr k ↦ inr ((Member-keep p xs a).1 (k, m.1)) ],
    )
    | inr n ↦ rw n (
      λ m. (inr ((Member-keep p xs a).0 m).0, ((Member-keep p xs a).0 m).1),
      λ m. elim m.0 [ inl e ↦ cc (n, rw e at m.1) | inr k ↦ (Member-keep p xs a).1 (k, m.1) ],
    )
  ]

pub Member-map :
    {A B : Type 0} (f : A → B) (l : List A) (a : A) → Member a l → Member (f a) (map f l)
Member-map f [] a m = absurd m
Member-map f (x ∷ xs) a (inl e) = inl (ap f e)
Member-map f (x ∷ xs) a (inr m) = inr (Member-map f xs a m)

pub Member-append_cases :
    {A : Type 0} (xs ys : List A) (a : A) → Member a (xs ++ ys) → Member a xs ⊎ Member a ys
Member-append_cases [] ys a m = inr m
Member-append_cases (x ∷ xs) ys a (inl e) = inl (inl e)
Member-append_cases (x ∷ xs) ys a (inr m) = elim (Member-append_cases xs ys a m) [
  | inl k ↦ inl (inr k)
  | inr k ↦ inr k
]

pub Member-append_right : {A : Type 0} (xs ys : List A) (a : A) → Member a ys → Member a (xs ++ ys)
Member-append_right [] ys a m = m
Member-append_right (x ∷ xs) ys a m = inr (Member-append_right xs ys a m)

pub Member-map_back :
    {A B : Type 0} (f : A → B) (l : List A) (b : B)
    → Member b (map f l)
    → (a : A) × Member a l × (b ≡ f a)
Member-map_back f [] b m = absurd m
Member-map_back f (x ∷ xs) b (inl e) = (x, inl refl, e)
Member-map_back f (x ∷ xs) b (inr m) = let (a, k, e) = Member-map_back f xs b m in (a, inr k, e)
