-- ===== src/Common/Maps.antt =====
-- Go's maps: association lists, one entry to a key. A `range` loop visits the entries in an
-- order of the runtime's choice.
use mathlib.Core.Path.{◌≡◌, refl, ap, sym, ◌∙◌}
use mathlib.Core.Logic.{◌≢◌, inl, inr}
use mathlib.Core.Bool.{false}
use mathlib.Core.List.{List, [], ◌∷◌, Permᴰ}
use mathlib.Core.List.Permᴰ
use mathlib.Core.Option.{Option, none, some}
use native.Mathlib.Omega.{arith}
use gateway_lite.Common.Boolean.{if◌then◌else◌, Eq, ◌==◌, Bool-cases, beq_refl}
use gateway_lite.Common.Lists.{Member}

abbrev pub Map : Type 0 → Type 0 → Type 0
Map K V = List (K × V)

module _ {K V : Type 0} ⦃e : Eq K⦄ where
  -- m[k]
  abbrev pub lookup : K → Map K V → Option V
  lookup k [] = none
  lookup k ((j, v) ∷ m) = if j == k then some v else lookup k m

  -- m[k] = v
  abbrev pub insert : K → V → Map K V → Map K V
  insert k v [] = (k, v) ∷ []
  insert k v ((j, w) ∷ m) = if j == k then (j, v) ∷ m else (j, w) ∷ insert k v m

  -- delete(m, k)
  abbrev pub delete : K → Map K V → Map K V
  delete k [] = []
  delete k ((j, v) ∷ m) = if j == k then delete k m else (j, v) ∷ delete k m

  pub lookup-insert :
      (k j : K) (v : V) (m : Map K V)
      → lookup j (insert k v m) ≡ (if k == j then some v else lookup j m)
  lookup-insert k j v [] = refl
  lookup-insert k j v ((i, w) ∷ m) =
      ground (arith, e.beq_iff k j, e.beq_iff i k, e.beq_iff i j, lookup-insert k j v m)

  pub lookup-delete :
      (k j : K) (m : Map K V) → lookup j (delete k m) ≡ (if k == j then none else lookup j m)
  lookup-delete k j [] = ground arith
  lookup-delete k j ((i, w) ∷ m) =
      ground (arith, e.beq_iff k j, e.beq_iff i k, e.beq_iff i j, lookup-delete k j m)

  pub lookup-insert_self : (k : K) (v : V) (m : Map K V) → lookup k (insert k v m) ≡ some v
  lookup-insert_self k v m = rw (lookup-insert k k v m, beq_refl k)

  pub lookup-insert_ne :
      (k j : K) (v : V) (m : Map K V) → (k == j) ≡ false → lookup j (insert k v m) ≡ lookup j m
  lookup-insert_ne k j v m h = rw (lookup-insert k j v m, h)

  pub lookup-delete_self : (k : K) (m : Map K V) → lookup k (delete k m) ≡ none
  lookup-delete_self k m = rw (lookup-delete k k m, beq_refl k)

  pub lookup-delete_ne :
      (k j : K) (m : Map K V) → (k == j) ≡ false → lookup j (delete k m) ≡ lookup j m
  lookup-delete_ne k j m h = rw (lookup-delete k j m, h)

  -- A new entry that is deleted again.
  pub lookup-delete-insert :
      (k j : K) (v : V) (m : Map K V)
      → lookup k m ≡ none
      → lookup j (delete k (insert k v m)) ≡ lookup j m
  lookup-delete-insert k j v m h = elim (Bool-cases (k == j)) [
    | inl y ↦
        let p : k ≡ j = (e.beq_iff k j).0 y in
        rw (lookup-delete k j (insert k v m), y) (sym (rw p at h))
    | inr n ↦ lookup-delete_ne k j (insert k v m) n ∙ lookup-insert_ne k j v m n
  ]

  -- One entry to a key.
  abbrev pub IsMap : Map K V → Type 0
  IsMap [] = Unit {0}
  IsMap ((k, v) ∷ m) = (lookup k m ≡ none) × IsMap m

  pub insert-IsMap : (k : K) (v : V) (m : Map K V) → IsMap m → IsMap (insert k v m)
  insert-IsMap k v [] h = (refl, tt)
  insert-IsMap k v ((j, w) ∷ m) h =
      ground (arith, insert-IsMap k v m h.1, lookup-insert k j v m, e.beq_iff j k, e.beq_iff k j)

  pub delete-IsMap : (k : K) (m : Map K V) → IsMap m → IsMap (delete k m)
  delete-IsMap k [] h = tt
  delete-IsMap k ((j, w) ∷ m) h = ground (arith, delete-IsMap k m h.1, lookup-delete k j m)

  pub lookup-Member : (k : K) (v : V) (m : Map K V) → lookup k m ≡ some v → Member (k, v) m
  lookup-Member k v [] h = cc
  lookup-Member k v ((j, w) ∷ m) h = elim (Bool-cases (j == k)) [
    | inl y ↦ inl (ground (arith, e.beq_iff j k))
    | inr n ↦ inr (lookup-Member k v m (rw n at h))
  ]

  pub lookup-ne-none : (k : K) (v : V) (m : Map K V) → Member (k, v) m → lookup k m ≢ none
  lookup-ne-none k v [] h = absurd h
  lookup-ne-none k v ((j, w) ∷ m) (inl h) =
      let e : k ≡ j = ap (λ (p : K × V). p.0) h in ground (arith, beq_refl j)
  lookup-ne-none k v ((j, w) ∷ m) (inr h) = ground (arith, lookup-ne-none k v m h)

  pub Member-lookup :
      (k : K) (v : V) (m : Map K V) → IsMap m → Member (k, v) m → lookup k m ≡ some v
  Member-lookup k v [] d h = absurd h
  Member-lookup k v ((j, w) ∷ m) d (inl h) =
      let p : k ≡ j = ap (λ (p : K × V). p.0) h in
      let q : v ≡ w = ap (λ (p : K × V). p.1) h in ground (arith, beq_refl j)
  Member-lookup k v ((j, w) ∷ m) d (inr h) =
      ground (arith, Member-lookup k v m d.1 h, lookup-ne-none k v m h, e.beq_iff j k)

  -- A property of every entry, kept by the writes.
  abbrev pub Entries : (K → V → Type 0) → Map K V → Type 0
  Entries P m = (k : K) (v : V) → lookup k m ≡ some v → P k v

  pub insert-Entries :
      (P : K → V → Type 0) (k : K) (v : V) (m : Map K V)
      → P k v
      → Entries P m
      → Entries P (insert k v m)
  insert-Entries P k v m p h j w l = elim (Bool-cases (k == j)) [
    | inl y ↦
        let a : k ≡ j = (e.beq_iff k j).0 y in
        let b : v ≡ w = ground (arith, lookup-insert k j v m) in rw (← a, ← b) p
    | inr n ↦ h j w (ground (arith, lookup-insert k j v m))
  ]

  pub delete-Entries :
      (P : K → V → Type 0) (k : K) (m : Map K V) → Entries P m → Entries P (delete k m)
  delete-Entries P k m h j w l = h j w (ground (arith, lookup-delete k j m))

-- The order in which one `range` loop visits a map.
pub record MapOrder : Type 1 where
  pub visit : {A : Type 0} → List A → List A
  pub visit_perm : {A : Type 0} (l : List A) → Permᴰ (visit l) l

abbrev pub in_order : MapOrder
in_order = record { visit = λ l. l; visit_perm = Permᴰ.refl }
