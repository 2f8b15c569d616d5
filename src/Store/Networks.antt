-- ===== src/Store/Networks.antt =====
-- The virtual networks of store.go, by their number.
use gateway_lite.Common.{
  Bool, Bytes, List, Map, MapOrder, Option, any, bytes_eq, delete, false, find_first, if◌then◌else◌,
  insert, keep, lookup, nat_eq, not, ℕ, ◌==◌, ◌||◌,
}
use gateway_lite.Common.Int.{pos, int_eq}
use gateway_lite.Store.Data.{StoreNetwork, Store, save, values, Disk}

put_networks : Disk → Store → Map ℕ StoreNetwork → Store
put_networks disk s m = save disk (record s { stored = record s.stored { networks = m } })

unfoldable pub list_networks_by_user : MapOrder → Store → Bytes → List StoreNetwork
list_networks_by_user order s user =
    keep (λ n. n.user == user) (order.visit (values s.stored.networks))

unfoldable pub get_network : Store → ℕ → Option StoreNetwork
get_network s id = lookup id s.stored.networks

-- An enabled network of the user that has the node as a member.
unfoldable pub serves : Bytes → Bytes → StoreNetwork → Bool
serves user node n =
    if not (n.user == user) || n.enable == pos 0 then false else any (λ m. m.name == node) n.members

unfoldable pub find_network_by_node : MapOrder → Store → Bytes → Bytes → Option StoreNetwork
unfolding serves
find_network_by_node order s user node =
    find_first (serves user node) (order.visit (values s.stored.networks))

unfoldable pub save_network : Disk → Store → StoreNetwork → Store
unfolding put_networks
save_network disk s n = put_networks disk s (insert n.id n s.stored.networks)

unfoldable pub delete_network : Disk → Store → ℕ → Store
unfolding put_networks
delete_network disk s id = put_networks disk s (delete id s.stored.networks)
