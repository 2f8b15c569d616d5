-- ===== src/Store/VirtualIp.antt =====
-- `allocVirtualIP` and `incIP` of store.go, over IPv4 addresses as their four bytes. net.ParseCIDR
-- is the parameter `parse_cidr`.
pub mod Increment
pub mod Allocation
pub mod First
use Prim.Native.Nat.{bit_and}
use gateway_lite.Common.{
  Bool, Bytes, List, Option, [], any, bytes_eq, false, if◌then◌else◌, map, nat_eq, none, some, suc,
  true, zero, ℕ, ◌%◌, ◌&&◌, ◌++◌, ◌+◌, ◌==◌, ◌^◌, ◌∷◌,
}
use gateway_lite.Common.Strconv.{format_uint}
use gateway_lite.Store.Data.{StoreNetwork, StoreNetworkNode}

-- What net.ParseCIDR gives of a text: the address as it prints, the network address (none where it
-- has no IPv4 form), and the mask.
pub record Cidr : Type 0 where
  pub address : Bytes
  pub network : Option (List ℕ)
  pub mask : List ℕ

-- One step of `incIP`, from the last byte: the bytes, and whether all of them wrapped to 0.
increment : List ℕ → List ℕ × Bool
increment [] = ([], true)
increment (b ∷ bs) =
    let (rest, carry) = increment bs in
    if carry then ((b + 1) % 256 ∷ rest, (b + 1) % 256 == 0) else (b ∷ rest, false)

unfoldable pub inc_ip : List ℕ → List ℕ
unfolding increment
inc_ip ip = (increment ip).0

-- ipnet.Contains
unfoldable pub contains : List ℕ → List ℕ → List ℕ → Bool
contains (m ∷ ms) (n ∷ ns) (b ∷ bs) = bit_and n m == bit_and b m && contains ms ns bs
contains [] [] [] = true
contains _ _ _ = false

-- ip.String() of four bytes
unfoldable pub format_ip : List ℕ → Bytes
format_ip [] = []
format_ip (b ∷ []) = format_uint b
format_ip (b ∷ c ∷ bs) = format_uint b ++ (b'.' ∷ format_ip (c ∷ bs))

-- The loop: the next address, until one is free or the subnet ends.
unfoldable pub alloc_loop : ℕ → (List ℕ → Bool) → List Bytes → List ℕ → Option (List ℕ)
alloc_loop zero inside used ip = none
alloc_loop (suc rounds) inside used ip =
    let next = inc_ip ip in
    let rest = alloc_loop rounds inside used next in
    if inside next then (if any (λ u. format_ip next == u) used then rest else some next) else none

pub data IpResult : Type 0 where
  allocated : Bytes → IpResult
  invalid_gateway only_ipv4 no_free_ip : IpResult

abbrev pub alloc_rounds : ℕ
alloc_rounds = 2 ^ 24

-- The addresses that are taken: the gateway's and the members'.
abbrev pub used_ips : Cidr → StoreNetwork → List Bytes
used_ips c n = c.address ∷ map (λ m. m.ip) n.members

alloc_in : StoreNetwork → Cidr → Option (List ℕ) → IpResult
alloc_in n c none = only_ipv4
alloc_in n c (some ip) = elim (alloc_loop alloc_rounds (contains c.mask ip) (used_ips c n) ip) [
  | none ↦ no_free_ip
  | some free ↦ allocated (format_ip free)
]

unfoldable pub alloc_virtual_ip : (Bytes → Option Cidr) → StoreNetwork → IpResult
unfolding alloc_in
alloc_virtual_ip parse_cidr n = elim (parse_cidr n.gateway) [
  | none ↦ invalid_gateway
  | some c ↦ alloc_in n c c.network
]
