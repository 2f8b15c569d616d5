-- ===== src/Store/VirtualIp/First.antt =====
-- Which address `allocVirtualIP` of store.go gives, by the numbers that the addresses stand for.
use gateway_lite.Store.Data.{StoreNetwork, StoreNetworkNode}
use gateway_lite.Store.VirtualIp.{
  Cidr, IpResult, contains, alloc_virtual_ip, allocated, format_ip, used_ips, only_ipv4,
  invalid_gateway, no_free_ip, inc_ip,
}
use gateway_lite.Common.{
  refl, some, true, false, inl, inr, zero, suc, nat_eq, bytes_eq, Bytes, List, Option, ℕ, AllBytes,
  Member, ◌≡◌, length, ◌⊎◌, Member-map, Member-map_back, ◌+◌, ◌<◌, ◌%◌, ◌^◌, Bool, subst, sym,
  arith, map, ◌∙◌,
}
use native.Mathlib.Nat.{mod-add-mod, mod-eq_of_lt}
use gateway_lite.Store.VirtualIp.Allocation.{Taken, nth_ip, Answers, alloc_virtual_ip-Answers}
use gateway_lite.Store.VirtualIp.Increment.{ip_value, ip_value-inc_ip, ip_value-lt}

-- The address that many numbers on, of the same length, modulo the number of addresses.
pub record After (ip : List ℕ) (k : ℕ) (a : List ℕ) : Type 0 where
  pub bytes : AllBytes a
  pub same_length : length a ≡ length ip
  pub value : ip_value a ≡ (ip_value ip + k) % 256 ^ length ip

-- The gateway has this address, or a member has it.
abbrev pub IsUsed : Cidr → StoreNetwork → Bytes → Type 0
IsUsed c n text = (text ≡ c.address) ⊎ ((m : StoreNetworkNode) × Member m n.members × (text ≡ m.ip))

-- The address that many numbers on lies in the subnet and is used.
abbrev pub UsedAt : Cidr → StoreNetwork → List ℕ → ℕ → Type 0
UsedAt c n ip k =
    (a : List ℕ) × After ip k a × (contains c.mask ip a ≡ true) × IsUsed c n (format_ip a)

-- Either the text of the first address after this one that is in the subnet and not used, within
-- the rounds of the loop; or none, where every address up to the end of the subnet or of the rounds
-- is used.
abbrev pub First : Cidr → StoreNetwork → List ℕ → IpResult → Type 0
First c n ip (allocated text) =
    (k : ℕ) × (a : List ℕ) × (k < 2 ^ 24)
    × After ip (suc k) a
    × (text ≡ format_ip a)
    × (contains c.mask ip a ≡ true)
    × ¬ IsUsed c n text
    × ((j : ℕ) → j < k → UsedAt c n ip (suc j))
First c n ip no_free_ip =
    (k : ℕ) × ((j : ℕ) → j < k → UsedAt c n ip (suc j))
    × ((k ≡ 2 ^ 24) ⊎ ((a : List ℕ) × After ip (suc k) a × (contains c.mask ip a ≡ false)))
First c n ip invalid_gateway = ⊥
First c n ip only_ipv4 = ⊥

nth_ip-After : (k : ℕ) (ip : List ℕ) → AllBytes ip → After ip k (nth_ip k ip)
unfolding nth_ip
nth_ip-After zero ip h = record {
  bytes = h;
  same_length = refl;
  value =
      let e : ip_value ip + 0 ≡ ip_value ip = omega arith in
      rw e (sym (mod-eq_of_lt (ip_value-lt ip h)));
}
nth_ip-After (suc k) ip h =
    let (l, b, v) = ip_value-inc_ip ip h in
    let r = nth_ip-After k (inc_ip ip) b in
    let e : (ip_value (inc_ip ip) + k) % 256 ^ length (inc_ip ip)
        ≡ (ip_value ip + suc k) % 256 ^ length ip =
      let f : ip_value ip + suc k ≡ ip_value ip + 1 + k = omega arith in
      rw (l, v, f) (mod-add-mod (ip_value ip + 1) (256 ^ length ip) k) in
    record { bytes = r.bytes; same_length = r.same_length ∙ l; value = r.value ∙ e }

Member-IsUsed :
    (c : Cidr) (n : StoreNetwork) (text : Bytes) → Member text (used_ips c n) → IsUsed c n text
Member-IsUsed c n text (inl p) = inl p
Member-IsUsed c n text (inr m) = inr (Member-map_back _ n.members text m)

IsUsed-Member :
    (c : Cidr) (n : StoreNetwork) (text : Bytes) → IsUsed c n text → Member text (used_ips c n)
IsUsed-Member c n text (inl p) = inl p
IsUsed-Member c n text (inr (m, k, e)) = inr (
    subst (λ t. Member t (map (λ m. m.ip) n.members)) (sym e)
      (Member-map (λ m. m.ip) n.members m k))

-- Each of the addresses that the loop passes over.
Taken-at :
    (inside : List ℕ → Bool) (used : List Bytes) (k j : ℕ) (ip : List ℕ)
    → j < k
    → Taken inside used k ip
    → (inside (nth_ip (suc j) ip) ≡ true) × Member (format_ip (nth_ip (suc j) ip)) used
unfolding nth_ip
Taken-at inside used zero j ip l t = absurd (omega arith)
Taken-at inside used (suc k) zero ip l (i, m, t) = (i, m)
Taken-at inside used (suc k) (suc j) ip l (i, m, t) =
    Taken-at inside used k j (inc_ip ip) (omega arith) t

module _ (c : Cidr) (n : StoreNetwork) (ip : List ℕ) (h : AllBytes ip) where
  Taken-UsedAt :
      (k : ℕ)
      → Taken (contains c.mask ip) (used_ips c n) k ip
      → (j : ℕ) → j < k
      → UsedAt c n ip (suc j)
  Taken-UsedAt k t j l =
      let (i, m) = Taken-at (contains c.mask ip) (used_ips c n) k j ip l t in
      (nth_ip (suc j) ip, nth_ip-After (suc j) ip h, i, Member-IsUsed c n _ m)

  Answers-First : (r : IpResult) → Answers c n ip r → First c n ip r
  Answers-First (allocated text) (a, p, (k, l, t, e, i, free)) = (
    k,
    a,
    l,
    rw e (nth_ip-After (suc k) ip h),
    p,
    i,
    λ u. free (subst (λ x. Member x (used_ips c n)) p (IsUsed-Member c n text u)),
    Taken-UsedAt k t,
  )
  Answers-First no_free_ip (k, t, inl e) = (k, Taken-UsedAt k t, inl e)
  Answers-First no_free_ip (k, t, inr out) =
      (k, Taken-UsedAt k t, inr (nth_ip (suc k) ip, nth_ip-After (suc k) ip h, out))
  Answers-First invalid_gateway x = x
  Answers-First only_ipv4 x = x

-- In a network whose gateway parses with an IPv4 subnet, the text that is given is that of the first
-- address after the network address, by their numbers, that lies in the subnet and that neither the
-- gateway nor a member has; none is given only where all of them up to the end of the subnet, or the
-- first 2 ^ 24, are in use.
pub alloc_virtual_ip-First :
    (parse_cidr : Bytes → Option Cidr) (n : StoreNetwork) (c : Cidr) (ip : List ℕ)
    → parse_cidr n.gateway ≡ some c
    → c.network ≡ some ip
    → AllBytes ip
    → First c n ip (alloc_virtual_ip parse_cidr n)
alloc_virtual_ip-First parse_cidr n c ip g v h =
    Answers-First c n ip h _ (alloc_virtual_ip-Answers parse_cidr n c ip g v)
