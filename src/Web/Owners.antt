-- ===== src/Web/Owners.antt =====
-- webmgmt.go: the requests about networks, and the networks of other users.
use gateway_lite.Web.Notices.{push_sdwan_refresh-store, refresh_all-store}
use gateway_lite.Store.VirtualIp.{no_free_ip}
use gateway_lite.Store.VirtualIp.{IpResult, allocated, alloc_virtual_ip, invalid_gateway, only_ipv4}
use gateway_lite.Web.Routes.{serve_user, post_network, post_delete, post_member, post_member_delete}
use gateway_lite.Common.Strconv.{format_uint, parse_uint}
use gateway_lite.Gateway.Stable.{and_then-Keeps}
use gateway_lite.Store.Calls.Consistent.{IsConsistent}
use gateway_lite.Store.Networks.{save_network, get_network, delete_network}
use gateway_lite.Store.Data.{StoreNetwork, StoreNetworkNode, stored-save}
use gateway_lite.Web.Sdwan.{
  push_sdwan_refresh, refresh_all, store_network, notify_network_members, owned, save_checked,
  save_filled, target, fill, new_network, add_found, add_network_member, del_network_member,
  web_delete_network, web_save_network, add_checked, delete_found, put_member, remove_found,
  join_at, own_network, join, without,
}
use gateway_lite.Web.{Host, Response, Body, SaveNetworkReq, network_id, Request, MemberReq}
use gateway_lite.Common.{
  refl, none, some, inl, inr, [], nat_eq, bytes_eq, ℕ, List, Bytes, lookup, ◌≡◌, ◌≢◌, Option,
  insert, Option-cases, lookup-insert_ne, ◌∙◌, Bool-cases, beq_false, ◌==◌, arith, bytes_beq_iff,
  ◌||◌, delete, lookup-delete_ne, find_first,
}
use gateway_lite.Gateway.{M, World}

-- The network under a number, after an action.
abbrev pub Leaves : ℕ → StoreNetwork → M Response → World → Type 0
Leaves id n m w = lookup id (m w).0.store.stored.networks ≡ some n

module _ (host : Host) (id : ℕ) (n : StoreNetwork) where
  abbrev Holds : World → Type 0
  Holds w = lookup id w.store.stored.networks ≡ some n

  notified-Holds : (ms : List StoreNetworkNode) (w : World) → Holds w → Holds (refresh_all ms w).0
  notified-Holds ms w h = rw (refresh_all-store ms w) h

  saved-Holds :
      (m : StoreNetwork) (w : World)
      → m.id ≢ id
      → Holds w
      → Holds (record w { store = save_network host.disk w.store m })
  unfolding save_network
  saved-Holds m w ne h =
      let s = w.store in
      let t = record s {
        stored = record s.stored { networks = insert m.id m s.stored.networks };
      } in
      rw (stored-save host.disk t)
        (lookup-insert_ne m.id id m s.stored.networks (beq_false m.id id ne) ∙ h)

  store_network-Leaves :
      (m : StoreNetwork) (answer : Body) (w : World)
      → m.id ≢ id
      → Holds w
      → Leaves id n (store_network host m answer) w
  unfolding store_network notify_network_members
  store_network-Leaves m answer w ne h =
      let v = record w { store = save_network host.disk w.store m } in
      and_then-Keeps Holds _ (refresh_all m.members v).1 _
        (notified-Holds m.members v (saved-Holds m w ne h)) (λ u x p. p)

  module _ (user : Bytes) (w : World) (c : IsConsistent w.store.stored) (h : Holds w)
      (other : n.user ≢ user) where
    -- A network of the user's own has another number.
    owned-ne :
        (key : ℕ) (m : StoreNetwork)
        → owned user (get_network w.store key) ≡ some m
        → (m.id ≢ id) × (key ≢ id)
    unfolding owned get_network
    owned-ne key m e = elim (Option-cases (lookup key w.store.stored.networks)) [
      | inl f ↦ cc (rw (f, owned) at e)
      | inr (k, f) ↦ elim (Bool-cases (k.user == user)) [
        | inr x ↦ cc (rw (f, owned, x) at e)
        | inl y ↦
            let p : some k ≡ some m = rw (f, owned, y) at e in
            let q : k ≡ m = ground arith in
            let own : k.user ≡ user = (bytes_beq_iff k.user user).0 y in
            let number : k.id ≡ key = c.network_keys key k f in
            let ne : key ≢ id =
              λ o. let same : n ≡ k = ground (arith, h, rw o at f) in other (rw same own) in
            (λ o. ne (ground (arith, number, q, o)), ne)
      ]
    ]

    save_checked-Leaves :
        (req : SaveNetworkReq)
        → (new_network host user req).id ≢ id
        → Leaves id n (save_checked host user req) w
    unfolding save_checked save_filled target fill
    save_checked-Leaves req fresh = elim (Bool-cases (req.gateway == [] || req.name == [])) [
      | inl y ↦ rw (save_checked, y) h
      | inr x ↦ rw (save_checked, x) (filled (target host user req w) named)
    ]
      where
        filled :
            (o : Option StoreNetwork)
            → ((m : StoreNetwork) → o ≡ some m → m.id ≢ id)
            → Leaves id n (save_filled host req o) w
        filled none k = h
        filled (some m) k =
            store_network-Leaves (fill req m) (network_id (format_uint m.id)) w (k m refl) h

        named : (m : StoreNetwork) → target host user req w ≡ some m → m.id ≢ id
        named m e = elim (Bool-cases (req.id == 0)) [
          | inl y ↦
              let p : some (new_network host user req) ≡ some m = rw (target, y) at e in
              let q : new_network host user req ≡ m = ground arith in rw (← q) fresh
          | inr x ↦ (owned-ne req.id m (rw (target, x) at e)).0
        ]

    save-Leaves :
        (r : Request)
        → ((req : SaveNetworkReq)
            → host.web_json.save_network_req r.body ≡ some req
            → (new_network host user req).id ≢ id)
        → Leaves id n (web_save_network host user r) w
    unfolding web_save_network
    save-Leaves r fresh = elim (Option-cases (host.web_json.save_network_req r.body)) [
      | inl e ↦ rw (web_save_network, e) h
      | inr (req, e) ↦ rw (web_save_network, e) (save_checked-Leaves req (fresh req e))
    ]

    delete-Leaves : (r : Request) → Leaves id n (web_delete_network host user r) w
    unfolding web_delete_network delete_found own_network notify_network_members delete_network
    delete-Leaves r = deleted (own_network user r w) (λ m e. (owned-ne key m e).1)
      where
        key : ℕ
        key = parse_uint 64 r.id

        deleted :
            (o : Option StoreNetwork)
            → ((m : StoreNetwork) → o ≡ some m → key ≢ id)
            → Holds (delete_found host key o w).0
        deleted none k = h
        deleted (some m) k =
            let s = w.store in
            let t = record s {
              stored = record s.stored { networks = delete key s.stored.networks };
            } in
            let v = record w { store = delete_network host.disk s key } in
            let gone : Holds v =
              rw (stored-save host.disk t)
                (lookup-delete_ne key id s.stored.networks (beq_false key id (k m refl)) ∙ h) in
            and_then-Keeps Holds _ (refresh_all m.members v).1 _ (notified-Holds m.members v gone)
              (λ u x p. p)

    add_found-Leaves :
        (req : MemberReq) (m : StoreNetwork)
        → m.id ≢ id
        → Leaves id n (add_found host req (some m)) w
    unfolding add_found put_member join_at join
    add_found-Leaves req m ne = put (find_first (λ a. a.name == req.name) m.members)
      where
        joined : (a : IpResult) → Holds (join_at host req m a w).0
        joined (allocated ip) = store_network-Leaves _ _ w ne h
        joined invalid_gateway = h
        joined only_ipv4 = h
        joined no_free_ip = h

        put : (o : Option StoreNetworkNode) → Holds (put_member host req m o w).0
        put (some a) = store_network-Leaves _ _ w ne h
        put none = elim (Bool-cases (req.ip == [])) [
          | inl y ↦ rw (y, put_member) (joined (alloc_virtual_ip host.parse_cidr m))
          | inr x ↦ rw (x, put_member) (joined (allocated req.ip))
        ]

    add-Leaves : (r : Request) → Leaves id n (add_network_member host user r) w
    unfolding add_network_member add_checked add_found own_network
    add-Leaves r = elim (Option-cases (host.web_json.member_req r.body)) [
      | inl e ↦ rw (add_network_member, e) h
      | inr (req, e) ↦
          rw (add_network_member, e)
            (ground (arith, h, added req (own_network user r w) (λ m f. (owned-ne _ m f).0)))
    ]
      where
        added :
            (req : MemberReq) (o : Option StoreNetwork)
            → ((m : StoreNetwork) → o ≡ some m → m.id ≢ id)
            → Holds (add_found host req o w).0
        added req none k = h
        added req (some m) k = add_found-Leaves req m (k m refl)

    remove-Leaves : (r : Request) → Leaves id n (del_network_member host user r) w
    unfolding del_network_member remove_found own_network notify_network_members
    remove-Leaves r = elim (Option-cases (host.web_json.member_req r.body)) [
      | inl e ↦ rw (del_network_member, e) h
      | inr (req, e) ↦
          rw (del_network_member, e)
            (removed req.name (own_network user r w) (λ m f. (owned-ne _ m f).0))
    ]
      where
        removed :
            (name : Bytes) (o : Option StoreNetwork)
            → ((m : StoreNetwork) → o ≡ some m → m.id ≢ id)
            → Holds (remove_found host name o w).0
        removed name none k = h
        removed name (some m) k =
            let v = record w { store = save_network host.disk w.store (without name m) } in
            and_then-Keeps Holds _ (refresh_all (without name m).members v).1 _
              (notified-Holds (without name m).members v
                (saved-Holds (without name m) w (k m refl) h))
              (λ u x p.
                and_then-Keeps Holds _ (push_sdwan_refresh name x).1 _
                  (rw (push_sdwan_refresh-store name x) p) (λ a y q. q))

-- In a consistent store, the requests of one user that save or delete a network, or add or remove a
-- member, leave a network of another user as it was, whatever number or body they bring; where a
-- request makes a new network, as long as the number that is computed for it is not that network's.
pub networks-Leaves :
    (host : Host) (user : Bytes) (r : Request) (w : World) (id : ℕ) (n : StoreNetwork)
    → IsConsistent w.store.stored
    → lookup id w.store.stored.networks ≡ some n
    → n.user ≢ user
    → ((req : SaveNetworkReq)
        → host.web_json.save_network_req r.body ≡ some req
        → (new_network host user req).id ≢ id)
    → Leaves id n (serve_user host user r post_network) w
      × Leaves id n (serve_user host user r post_delete) w
      × Leaves id n (serve_user host user r post_member) w
      × Leaves id n (serve_user host user r post_member_delete) w
unfolding serve_user
networks-Leaves host user r w id n c h other fresh = (
  save-Leaves host id n user w c h other r fresh,
  delete-Leaves host id n user w c h other r,
  add-Leaves host id n user w c h other r,
  remove-Leaves host id n user w c h other r,
)
