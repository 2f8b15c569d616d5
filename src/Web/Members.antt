-- ===== src/Web/Members.antt =====
-- webmgmt.go: what addNetworkMember and delNetworkMember leave in the store.
use gateway_lite.Common.Int.{pos}
use gateway_lite.Store.VirtualIp.Allocation.{alloc_virtual_ip-Answers, Answers}
use gateway_lite.Web.Notices.{refresh_all-store}
use gateway_lite.Gateway.Connection.{min_node_name_len}
use gateway_lite.Store.VirtualIp.{Cidr, alloc_virtual_ip, allocated, used_ips}
use gateway_lite.Gateway.Stable.{and_then-Keeps}
use gateway_lite.Common.Strconv.{parse_uint}
use gateway_lite.Web.{Host, Request, Body, MemberReq}
use gateway_lite.Store.Networks.{get_network, save_network}
use gateway_lite.Store.Data.{StoreNetworkNode, StoreNetwork, stored-save}
use gateway_lite.Web.Sdwan.{
  own_network, store_network, add_network_member, notify_network_members, owned, add_checked,
  add_found, put_member, join_at, join, refresh_all, set_member,
}
use gateway_lite.Web.Routes.{serve_user, post_member}
use gateway_lite.Common.{
  refl, none, some, true, false, [], nat_eq, bytes_eq, Bytes, List, All, ◌≢◌, find_first, lookup,
  ◌==◌, ◌≡◌, bytes_beq_iff, insert, ◌∷◌, beq_false, ℕ, ◌≤◌, length, lookup-insert_self, ◌++◌,
  Member, ltb, arith, subst, ◌∙◌, ap, inl, inr, Member-All, map, Member-map,
}
use gateway_lite.Gateway.{World}

-- What storing a network leaves: the network under its number, and the answer where no notice panics.
store_network-stores :
    (host : Host) (n : StoreNetwork) (answer : Body) (w : World)
    → lookup n.id (store_network host n answer w).0.store.stored.networks ≡ some n
unfolding store_network notify_network_members save_network
store_network-stores host n answer w =
    let s = w.store in
    let t = record s { stored = record s.stored { networks = insert n.id n s.stored.networks } } in
    let v = record w { store = save_network host.disk s n } in
    and_then-Keeps (λ x. lookup n.id x.store.stored.networks ≡ some n) _ (refresh_all n.members v).1
      _
      (rw (refresh_all-store n.members v, stored-save host.disk t)
        (lookup-insert_self n.id n s.stored.networks))
      (λ u x p. p)

-- The user's own network under the number of the path.
own-found :
    (user : Bytes) (r : Request) (w : World) (n : StoreNetwork)
    → lookup (parse_uint 64 r.id) w.store.stored.networks ≡ some n
    → n.user ≡ user
    → own_network user r w ≡ some n
unfolding own_network owned get_network
own-found user r w n h own = rw (h, owned, (bytes_beq_iff n.user user).1 own) refl

find-none :
    (name : Bytes) (ms : List StoreNetworkNode)
    → All (λ m. m.name ≢ name) ms
    → find_first (λ m. m.name == name) ms ≡ none
find-none name [] a = refl
find-none name (m ∷ ms) (ne, a) = rw (beq_false m.name name ne) (find-none name ms a)

set_member-new :
    (req : MemberReq) (a : Bytes)
    → req.ip ≡ []
    → set_member req (record { name = req.name; ip = a; resource = []; enable = pos 0 })
      ≡ record { name = req.name; ip = a; resource = req.resource; enable = req.enable }
unfolding set_member
set_member-new req a empty = rw ((bytes_beq_iff req.ip []).1 empty) refl

-- A user adds a node without an address to an own network that does not have it, where the gateway of the
-- network parses with an IPv4 subnet and the allocation gives an address. Then the stored network has
-- the node at the end of its members, under this address, and the address is neither the gateway's nor
-- another member's.
pub add_network_member_fresh :
    (host : Host) (user : Bytes) (r : Request) (req : MemberReq) (w : World) (n : StoreNetwork)
    (c : Cidr) (ip : List ℕ) (a : Bytes)
    → host.web_json.member_req r.body ≡ some req
    → min_node_name_len ≤ length req.name
    → req.ip ≡ []
    → lookup n.id w.store.stored.networks ≡ some n
    → parse_uint 64 r.id ≡ n.id
    → n.user ≡ user
    → All (λ m. m.name ≢ req.name) n.members
    → host.parse_cidr n.gateway ≡ some c
    → c.network ≡ some ip
    → alloc_virtual_ip host.parse_cidr n ≡ allocated a
    → (lookup n.id (serve_user host user r post_member w).0.store.stored.networks
        ≡ some (record n {
          members =
              n.members
              ++ record { name = req.name; ip = a; resource = req.resource; enable = req.enable }
                ∷ [];
        }))
      × (a ≢ c.address)
      × All (λ m. m.ip ≢ a) n.members
unfolding serve_user add_network_member add_checked add_found put_member join_at join
add_network_member_fresh host user r req w n c ip a e long empty h key own new g v found =
    let short : ltb (length req.name) min_node_name_len ≡ false = ground arith in
    let mine = own-found user r w n (rw key h) own in
    let absent = find-none req.name n.members new in
    let none_given : (req.ip == []) ≡ true = (bytes_beq_iff req.ip []).1 empty in
    let answer = alloc_virtual_ip-Answers host.parse_cidr n c ip g v in
    let given : Answers c n ip (allocated a) = subst (Answers c n ip) found answer in
    let (x, text, (k, l, taken, q, inside, new_ip)) = given in
    let taken_not : ¬ Member a (used_ips c n) =
      λ o. new_ip (subst (λ t. Member t (used_ips c n)) text o) in
    let m = set_member req (record { name = req.name; ip = a; resource = []; enable = pos 0 }) in
    let same : m
        ≡ record { name = req.name; ip = a; resource = req.resource; enable = req.enable } =
      set_member-new req a empty in
    let stored : lookup n.id (serve_user host user r post_member w).0.store.stored.networks
        ≡ some (record n { members = n.members ++ m ∷ [] }) =
      rw (add_network_member, e, short, mine, add_found, absent, put_member, none_given, found)
        (store_network-stores host (record n { members = n.members ++ m ∷ [] }) _ w) in
    (
      stored ∙ ap (λ k. some (record n { members = n.members ++ k ∷ [] })) same,
      λ o. taken_not (inl o),
      Member-All (λ k. k.ip ≢ a) n.members
          (λ k b o. taken_not (
            inr (
              subst (λ t. Member t (map (λ m. m.ip) n.members)) o
                (Member-map (λ m. m.ip) n.members k b)))),
    )
