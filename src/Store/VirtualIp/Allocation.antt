-- ===== src/Store/VirtualIp/Allocation.antt =====
-- Which address `allocVirtualIP` gives.
use gateway_lite.Common.{
  Bool, Bool-cases, Bytes, List, Member, Option, any, any-Member, ap, arith, bytes_eq, false, inl,
  inr, nat_eq, none, refl, some, suc, true, zero, ℕ, ◌<◌, ◌==◌, ◌≡◌, ◌⊎◌,
}
use gateway_lite.Store.Data.{StoreNetwork}
use gateway_lite.Store.VirtualIp.{
  Cidr, IpResult, allocated, invalid_gateway, only_ipv4, no_free_ip, inc_ip, contains, format_ip,
  alloc_loop, alloc_rounds, used_ips, alloc_in, alloc_virtual_ip,
}

-- The address that many steps on.
unfoldable pub nth_ip : ℕ → List ℕ → List ℕ
nth_ip zero ip = ip
nth_ip (suc k) ip = nth_ip k (inc_ip ip)

module _ (inside : List ℕ → Bool) (used : List Bytes) where
  -- The next k addresses lie in the subnet, and all are taken.
  abbrev pub Taken : ℕ → List ℕ → Type 0
  Taken zero ip = Unit {0}
  Taken (suc k) ip =
      (inside (inc_ip ip) ≡ true) × Member (format_ip (inc_ip ip)) used × Taken k (inc_ip ip)

  -- What the loop returns: the first address after k taken ones that is in the subnet and free,
  -- or nothing, where the rounds or the subnet end after k taken ones.
  abbrev pub Allocates : ℕ → List ℕ → Option (List ℕ) → Type 0
  Allocates rounds ip (some a) =
      (k : ℕ) × (k < rounds)
      × Taken k ip
      × (a ≡ nth_ip (suc k) ip)
      × (inside a ≡ true)
      × ¬ Member (format_ip a) used
  Allocates rounds ip none =
      (k : ℕ) × Taken k ip × ((k ≡ rounds) ⊎ (inside (nth_ip (suc k) ip) ≡ false))

  Allocates-later :
      (rounds : ℕ) (ip : List ℕ) (o : Option (List ℕ))
      → inside (inc_ip ip) ≡ true
      → Member (format_ip (inc_ip ip)) used
      → Allocates rounds (inc_ip ip) o
      → Allocates (suc rounds) ip o
  unfolding nth_ip
  Allocates-later rounds ip none i m (k, t, inl e) = (suc k, (i, m, t), inl (ap suc e))
  Allocates-later rounds ip none i m (k, t, inr e) = (suc k, (i, m, t), inr e)
  Allocates-later rounds ip (some a) i m (k, l, t, e, f, g) =
      (suc k, omega arith, (i, m, t), e, f, g)

  alloc_loop-Allocates :
      (rounds : ℕ) (ip : List ℕ) → Allocates rounds ip (alloc_loop rounds inside used ip)
  unfolding alloc_loop nth_ip
  alloc_loop-Allocates zero ip = (0, tt, inl refl)
  alloc_loop-Allocates (suc rounds) ip = elim (Bool-cases (inside (inc_ip ip))) [
    | inr out ↦ rw (out, alloc_loop) (0, tt, inr out)
    | inl i ↦ elim (Bool-cases (any (λ u. format_ip (inc_ip ip) == u) used)) [
      | inl m ↦
          rw (i, m, alloc_loop)
            (Allocates-later rounds ip (alloc_loop rounds inside used (inc_ip ip)) i
              ((any-Member (format_ip (inc_ip ip)) used).0 m)
              (alloc_loop-Allocates rounds (inc_ip ip)))
      | inr free ↦
          rw (i, free, alloc_loop)
            (
              0,
              omega arith,
              tt,
              refl,
              i,
              λ m. cc (free, (any-Member (format_ip (inc_ip ip)) used).1 m),
            )
    ]
  ]

-- The answers of the allocation in a subnet.
abbrev pub Answers : Cidr → StoreNetwork → List ℕ → IpResult → Type 0
Answers c n ip (allocated text) =
    (a : List ℕ) × (text ≡ format_ip a)
    × Allocates (contains c.mask ip) (used_ips c n) alloc_rounds ip (some a)
Answers c n ip no_free_ip = Allocates (contains c.mask ip) (used_ips c n) alloc_rounds ip none
Answers c n ip invalid_gateway = ⊥
Answers c n ip only_ipv4 = ⊥

alloc_in-Answers :
    (n : StoreNetwork) (c : Cidr) (ip : List ℕ) → Answers c n ip (alloc_in n c (some ip))
unfolding alloc_in
alloc_in-Answers n c ip =
    cases (alloc_loop alloc_rounds (contains c.mask ip) (used_ips c n) ip)
      (alloc_loop-Allocates (contains c.mask ip) (used_ips c n) alloc_rounds ip)
  where
    cases :
        (o : Option (List ℕ))
        → Allocates (contains c.mask ip) (used_ips c n) alloc_rounds ip o
        → Answers c n ip (elim o [ none ↦ no_free_ip | some free ↦ allocated (format_ip free) ])
    cases none h = h
    cases (some a) h = (a, refl, h)

-- In a network whose gateway parses with an IPv4 subnet, the address that is given is the first
-- after the network address that lies in the subnet and is neither the gateway's nor a member's;
-- none is given only where every address up to the end of the subnet, or up to the bound of the
-- loop, is taken.
pub alloc_virtual_ip-Answers :
    (parse_cidr : Bytes → Option Cidr) (n : StoreNetwork) (c : Cidr) (ip : List ℕ)
    → parse_cidr n.gateway ≡ some c
    → c.network ≡ some ip
    → Answers c n ip (alloc_virtual_ip parse_cidr n)
unfolding alloc_virtual_ip
alloc_virtual_ip-Answers parse_cidr n c ip h v =
    let e : alloc_virtual_ip parse_cidr n ≡ alloc_in n c (some ip) =
      rw (h, alloc_virtual_ip) (ap (alloc_in n c) v) in
    rw e (alloc_in-Answers n c ip)
