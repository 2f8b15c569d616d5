-- ===== src/Environment.antt =====
-- What the program takes from its host: common.go (`getmac`, `defaultNodeName`, `randStr`, `IsIPv6`,
-- `isLoopbackIP`) and openp2p.go (`parseParams`). The interfaces, the name of the host, the random
-- numbers and the environment variables are arguments.
mod Tests
use gateway_lite.Common.Strconv.{count}
use mathlib.Core.List.{append_assoc, append-nil}
use gateway_lite.Protocol.NodeId.{node_name_to_id}
use gateway_lite.Gateway.Connection.{min_node_name_len}
use gateway_lite.Common.{
  Bytes, none, some, true, false, inl, inr, [], zero, suc, nat_eq, bytes_eq, refl, Bool, List,
  Option, utf8, ℕ, if◌then◌else◌, leb, ltb, ◌∷◌, get_or, length, ◌+◌, ◌==◌, ◌≤◌, ◌%◌, ◌++◌, ◌||◌,
  ◌≡◌, ◌-◌, arith, ◌∙◌, ap, sym, Bool-cases, length-append, ltb→lt,
}

-- A network interface: its address as it prints, and the IP of each of its addresses, where the
-- address is a net.IPNet.
pub record Iface : Type 0 where
  pub mac : Bytes
  pub addrs : List (Option Bytes)

-- The loops go on with the first address so far, or return.
pub data Scan : Type 0 where
  goes_on : Bytes → Scan
  returns : Bytes → Scan

scan_addrs : Bytes → Bytes → Bytes → List (Option Bytes) → Scan
scan_addrs ip mac first [] = goes_on first
scan_addrs ip mac first (none ∷ more) = scan_addrs ip mac (if first == [] then mac else first) more
scan_addrs ip mac first (some a ∷ more) =
    let now = if first == [] then mac else first in
    let rest = scan_addrs ip mac now more in
    if a == ip then returns (if mac == [] then now else mac) else rest

scan_ifaces : Bytes → Scan → List Iface → Bytes
scan_ifaces ip (returns mac) is = mac
scan_ifaces ip (goes_on first) [] = first
scan_ifaces ip (goes_on first) (i ∷ is) = scan_ifaces ip (scan_addrs ip i.mac first i.addrs) is

-- The address of the interface that has the IP, or else the first one. `none` is an error of
-- net.Interfaces.
unfoldable pub getmac : Bytes → Option (List Iface) → Bytes
unfolding scan_addrs scan_ifaces
getmac ip none = []
getmac ip (some is) = scan_ifaces ip (goes_on []) is

-- The loop of defaultNodeName over the random numbers; none where the rounds run out.
unfoldable pub name_loop : ℕ → List ℕ → Bytes → Option Bytes
name_loop zero draws name = none
name_loop (suc rounds) [] name = if ltb (length name) min_node_name_len then none else some name
name_loop (suc rounds) (draw ∷ draws) name =
    let rest = name_loop rounds draws (name ++ (b'0' + draw % 10) ∷ []) in
    if ltb (length name) min_node_name_len then rest else some name

-- The name of the host, with digits up to eight bytes.
unfoldable pub default_node_name : List ℕ → Bytes → Option Bytes
default_node_name draws hostname = name_loop (min_node_name_len + 1) draws hostname

-- One round is enough for a name that is long enough.
name_loop-long :
    (k : ℕ) (draws : List ℕ) (name : Bytes)
    → ltb (length name) min_node_name_len ≡ false
    → name_loop (suc k) draws name ≡ some name
unfolding name_loop
name_loop-long k [] name n = rw n refl
name_loop-long k (d ∷ ds) name n = rw n refl

-- The loop with enough rounds and numbers.
name_loop-ends :
    (rounds : ℕ) (draws : List ℕ) (name : Bytes)
    → min_node_name_len ≤ length name + rounds
    → rounds ≤ length draws
    → (tail : Bytes) × (name_loop (suc rounds) draws name ≡ some (name ++ tail))
      × (length tail ≡ min_node_name_len - length name)
unfolding name_loop
name_loop-ends zero draws name enough given =
    let n : ltb (length name) min_node_name_len ≡ false = ground arith in
    ([], name_loop-long zero draws name n ∙ ap some (sym (append-nil name)), omega arith)
name_loop-ends (suc k) [] name enough given = absurd (omega arith)
name_loop-ends (suc k) (d ∷ ds) name enough given =
    elim (Bool-cases (ltb (length name) min_node_name_len)) [
      | inr n ↦ (
        [],
        name_loop-long (suc k) (d ∷ ds) name n ∙ ap some (sym (append-nil name)),
        ground arith,
      )
      | inl y ↦
          let digit = b'0' + d % 10 in
          let longer = length-append name (digit ∷ []) in
          let (tail, e, l) = name_loop-ends k ds (name ++ digit ∷ []) (omega arith) (omega arith) in
          (
            digit ∷ tail,
            rw y (e ∙ ap some (append_assoc name (digit ∷ []) tail)),
            ground (arith, l, longer, ltb→lt _ _ y),
          )
    ]

-- For any name of the host, the loop ends within the rounds it is given, where there are eight random
-- numbers: the result is the name with just as many bytes more as it lacks to eight.
pub default_node_name-ends :
    (draws : List ℕ) (hostname : Bytes)
    → min_node_name_len ≤ length draws
    → (tail : Bytes) × (default_node_name draws hostname ≡ some (hostname ++ tail))
      × (length tail ≡ min_node_name_len - length hostname)
unfolding default_node_name
default_node_name-ends draws hostname given =
    name_loop-ends min_node_name_len draws hostname (omega arith) given

abbrev letters : Bytes
letters = utf8 "abcdefghijklmnopqrstuvwxyzABCDEFGHIJKLMNOPQRSTUVWXYZ1234567890-"

-- A letter for each random number; `rand.Intn` is the number modulo the count of the letters.
unfoldable pub rand_str : List ℕ → Bytes
rand_str [] = []
rand_str (draw ∷ draws) = get_or letters (draw % length letters) 0 ∷ rand_str draws

unfoldable pub is_ipv6 : Bytes → Bool
is_ipv6 address = leb 2 (count b':' address)

-- What parseParams sets.
pub record Params : Type 0 where
  pub g_user : Bytes
  pub g_password : Bytes
  pub g_token : ℕ
  pub jwt_secret : Bytes

-- none is ErrUserOrPwdNotSet.
unfoldable pub parse_params : Bytes → Bytes → Option Params
parse_params user password =
    if user == [] || password == []
    then none
    else some (record {
      g_user = user;
      g_password = password;
      g_token = node_name_to_id (user ++ password);
      jwt_secret = user ++ (password ++ utf8 "@openp2p.cn");
    })
