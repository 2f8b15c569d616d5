-- ===== src/Store/Users/Lookup.antt =====
-- Finding users by their token, whatever the order of the loop.
use gateway_lite.Common.{
  All, All-perm, List, Map, MapOrder, Member, Member-perm, [], ap, arith, bytes_eq, find_first,
  find_first-Member, inl, inr, nat_beq_iff, nat_eq, none, some, ℕ, ◌==◌, ◌∷◌, ◌≡◌, ◌≢◌,
}
use gateway_lite.Store.Data.{StoreUser, Store, values}
use gateway_lite.Store.Users.{get_user_by_token}

pub Member-values :
    {K V : Type 0} (v : V) (m : Map K V) → Member v (values m) → (k : K) × Member (k, v) m
Member-values v [] h = absurd h
Member-values v ((k, w) ∷ m) (inl e) = (k, inl (ap (λ x. (k, x)) e))
Member-values v ((k, w) ∷ m) (inr h) = let r = Member-values v m h in (r.0, inr r.1)

pub Member-values_of :
    {K V : Type 0} (k : K) (v : V) (m : Map K V) → Member (k, v) m → Member v (values m)
Member-values_of k v [] h = absurd h
Member-values_of k v ((j, w) ∷ m) (inl e) = inl (ap (λ (p : _ × _). p.1) e)
Member-values_of k v ((j, w) ∷ m) (inr h) = inr (Member-values_of k v m h)

-- In any order of the loop: a user that is found is stored and has the token, and where none is
-- found no stored user has it.
pub get_user_by_token_lem :
    (order : MapOrder) (s : Store) (token : ℕ)
    → ((u : StoreUser)
        → get_user_by_token order s token ≡ some u
        → (u.token ≡ token) × Member u (values s.stored.users))
      × (get_user_by_token order s token ≡ none
          → All (λ u. u.token ≢ token) (values s.stored.users))
unfolding get_user_by_token
get_user_by_token_lem order s token = (
  λ u h.
      let r = find_first-Member (λ u. u.token == token) (order.visit (values s.stored.users)) h in
      ((nat_beq_iff u.token token).0 r.0, Member-perm u (order.visit_perm _) r.1),
  λ h.
      All-perm (λ u. u.token ≢ token) (order.visit_perm (values s.stored.users))
        (no_match (order.visit (values s.stored.users)) h),
)
  where
    no_match :
        (l : List StoreUser)
        → find_first (λ u. u.token == token) l ≡ none
        → All (λ u. u.token ≢ token) l
    no_match [] h = tt
    no_match (u ∷ us) h = ground (arith, no_match us)
