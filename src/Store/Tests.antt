-- ===== src/Store/Tests.antt =====
-- The properties of the store at concrete calls, and of the allocation in a subnet with a taken
-- address.
use gateway_lite.Common.{
  All, AllBytes, Bytes, List, Member, Option, [], arith, bytes_eq, in_order, length, nat_eq, none,
  refl, some, utf8, ◌%◌, ◌+◌, ◌^◌, ◌∷◌, ◌≡◌, ◌≢◌,
}
use gateway_lite.Common.Int.{pos}
use gateway_lite.Common.Strconv.{format_uint}
use gateway_lite.Store.Data.{
  StoreUser, StoreDevice, StoreNetwork, StoreNetworkNode, Store, new_store, empty_data, values,
  StoreJson,
}
use gateway_lite.Store.Users.{get_user_by_token}
use gateway_lite.Store.Users.Lookup.{get_user_by_token_lem}
use gateway_lite.Store.Calls.{Call, upserts, renames, run, step}
use gateway_lite.Store.Calls.Consistent.{IsConsistent, empty-IsConsistent, run-IsConsistent}
use gateway_lite.Store.Calls.Durable.{written_calls, started, restart, ReadsBack}
use gateway_lite.Store.VirtualIp.{Cidr, alloc_virtual_ip, inc_ip, contains, alloc_loop, format_ip}
use gateway_lite.Store.VirtualIp.Increment.{ip_value, ip_value-inc_ip}
use gateway_lite.Store.VirtualIp.First.{First, alloc_virtual_ip-First}

abbrev user : StoreUser
user = record {
  user = utf8 "ann";
  password = utf8 "letters0nly";
  token = 77;
  email = [];
  phone = [];
  addtime = [];
}

abbrev device : StoreDevice
device = record {
  name = utf8 "officenode";
  user = utf8 "ann";
  os = utf8 "linux";
  mac = [];
  lan_ip = [];
  ipv4 = [];
  ipv6 = [];
  nat_type = pos 2;
  bandwidth = pos 10;
  version = utf8 "3.10.1";
  remark = [];
  addtime = [];
  activetime = [];
}

abbrev member : StoreNetworkNode
member = record { name = utf8 "officenode"; ip = utf8 "10.2.3.1"; resource = []; enable = pos 1 }

abbrev network : StoreNetwork
network = record {
  id = 1;
  user = utf8 "ann";
  name = utf8 "home";
  gateway = utf8 "10.2.3.254/24";
  mode = utf8 "fullmesh";
  central_node = [];
  force_relay = pos 0;
  punch_priority = pos 0;
  enable = pos 1;
  tunnel_num = pos 1;
  mtu = pos 1420;
  members = member ∷ [];
}

abbrev calls : List (Bytes × Call)
calls =
    (utf8 "2024-01-02 03:04:05", upserts device)
    ∷ (utf8 "2024-01-02 03:04:06", renames (utf8 "officenode") (utf8 "labnode01"))
    ∷ []

-- No file is read.
abbrev json : StoreJson
json = record { marshal = λ d. utf8 "{}"; unmarshal = λ b. none }

run-IsConsistent_example :
    IsConsistent (run (new_store json none) (written_calls json calls)).stored
run-IsConsistent_example =
    run-IsConsistent (new_store json none) (written_calls json calls) (empty-IsConsistent json)

abbrev final : Store
final = started json none (utf8 "now") (utf8 "ann") (utf8 "letters0nly") 77 calls

-- A JSON of one text, which reads as the data above.
abbrev json_of_final : StoreJson
json_of_final = record {
  marshal = λ d. utf8 "{}";
  unmarshal = λ b. some (record {
    users = some final.stored.users;
    devices = some final.stored.devices;
    networks = some final.stored.networks;
  });
}

read_back :
    ReadsBack json_of_final
      (started json_of_final none (utf8 "now") (utf8 "ann") (utf8 "letters0nly") 77 calls).stored
unfolding run step new_store
read_back = refl

restart_example :
    (new_store json_of_final
      (started json_of_final none
        (utf8 "now")
        (utf8 "ann")
        (utf8 "letters0nly")
        77
        calls).file).stored
    ≡ (started json_of_final none (utf8 "now") (utf8 "ann") (utf8 "letters0nly") 77 calls).stored
restart_example =
    restart json_of_final none (utf8 "now") (utf8 "ann") (utf8 "letters0nly") 77 calls read_back

abbrev with_user : Store
with_user = record { stored = record empty_data { users = (utf8 "ann", user) ∷ [] }; file = none }

get_user_by_token_lem_case :
    ((u : StoreUser)
      → get_user_by_token in_order with_user 77 ≡ some u
      → (u.token ≡ 77) × Member u (values with_user.stored.users))
    × (get_user_by_token in_order with_user 77 ≡ none
        → All (λ u. u.token ≢ 77) (values with_user.stored.users))
get_user_by_token_lem_case = get_user_by_token_lem in_order with_user 77

ip_value-inc_ip_case :
    (length (inc_ip (10 ∷ 2 ∷ 255 ∷ 255 ∷ [])) ≡ 4)
    × AllBytes (inc_ip (10 ∷ 2 ∷ 255 ∷ 255 ∷ []))
    × (ip_value (inc_ip (10 ∷ 2 ∷ 255 ∷ 255 ∷ []))
        ≡ (ip_value (10 ∷ 2 ∷ 255 ∷ 255 ∷ []) + 1) % 256 ^ 4)
ip_value-inc_ip_case = ip_value-inc_ip (10 ∷ 2 ∷ 255 ∷ 255 ∷ []) (ground arith)

abbrev cidr : Cidr
cidr = record {
  address = utf8 "10.2.3.254";
  network = some (10 ∷ 2 ∷ 3 ∷ 0 ∷ []);
  mask = 255 ∷ 255 ∷ 255 ∷ 0 ∷ [];
}

abbrev parse_cidr : Bytes → Option Cidr
parse_cidr text = some cidr

alloc_virtual_ip-First_example :
    First cidr network (10 ∷ 2 ∷ 3 ∷ 0 ∷ []) (alloc_virtual_ip parse_cidr network)
alloc_virtual_ip-First_example =
    alloc_virtual_ip-First parse_cidr network cidr (10 ∷ 2 ∷ 3 ∷ 0 ∷ []) refl refl (ground arith)

-- The first address is taken, the second is free.
second_address :
    alloc_loop 9
      (contains cidr.mask (10 ∷ 2 ∷ 3 ∷ 0 ∷ []))
      (utf8 "10.2.3.254" ∷ utf8 "10.2.3.1" ∷ [])
      (10 ∷ 2 ∷ 3 ∷ 0 ∷ [])
    ≡ some (10 ∷ 2 ∷ 3 ∷ 2 ∷ [])
unfolding alloc_loop inc_ip contains format_ip format_uint
second_address = refl
