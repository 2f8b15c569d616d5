-- ===== src/Environment/Tests.antt =====
-- The helpers at concrete values.
use gateway_lite.Common.Strconv.{count}
use gateway_lite.Environment.{
  default_node_name, getmac, is_ipv6, Iface, name_loop, default_node_name-ends, rand_str,
  parse_params,
}
use gateway_lite.Common.{
  refl, none, some, true, false, [], nat_eq, bytes_eq, Bytes, List, utf8, ◌∷◌, ◌≡◌, ◌++◌, length,
  ◌-◌, arith,
}

default_node_name-ends_example :
    (tail : Bytes) × (default_node_name (1 ∷ 2 ∷ 3 ∷ 14 ∷ 5 ∷ 6 ∷ 7 ∷ 8 ∷ []) (utf8 "home")
      ≡ some (utf8 "home" ++ tail))
    × (length tail ≡ 8 - length (utf8 "home"))
default_node_name-ends_example =
    default_node_name-ends (1 ∷ 2 ∷ 3 ∷ 14 ∷ 5 ∷ 6 ∷ 7 ∷ 8 ∷ []) (utf8 "home") (omega arith)

lengthened :
    default_node_name (1 ∷ 2 ∷ 3 ∷ 14 ∷ 5 ∷ 6 ∷ 7 ∷ 8 ∷ []) (utf8 "home") ≡ some (utf8 "home1234")
unfolding default_node_name name_loop
lengthened = refl

abbrev ifaces : List Iface
ifaces =
    record { mac = []; addrs = some (utf8 "127.0.0.1") ∷ [] }
    ∷ record { mac = utf8 "02:42:ac:11:00:02"; addrs = some (utf8 "10.0.0.2") ∷ none ∷ [] }
    ∷ record { mac = utf8 "02:42:ac:11:00:03"; addrs = some (utf8 "10.0.0.3") ∷ [] }
    ∷ []

-- The address of an interface without one is the first of the others.
macs :
    (getmac (utf8 "10.0.0.3") (some ifaces) ≡ utf8 "02:42:ac:11:00:03")
    × (getmac (utf8 "127.0.0.1") (some ifaces) ≡ [])
    × (getmac (utf8 "10.0.0.9") (some ifaces) ≡ utf8 "02:42:ac:11:00:02")
unfolding getmac
macs = (refl, refl, refl)

addresses :
    (is_ipv6 (utf8 "240e:3b7::1") ≡ true)
    × (is_ipv6 (utf8 "1.2.3.4:80") ≡ false)
    × (rand_str (0 ∷ 25 ∷ 62 ∷ 64 ∷ []) ≡ utf8 "az-b")
    × (parse_params [] (utf8 "secret") ≡ none)
unfolding is_ipv6 count rand_str parse_params
addresses = (refl, refl, refl, refl)
