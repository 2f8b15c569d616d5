-- ===== src/Handlers/Sdwan/Members.antt =====
-- The members of the answer.
use gateway_lite.Common.{
  All, All-Member, All-perm, Bool-cases, Bytes, List, MapOrder, Member, Member-All, Member-perm,
  Option-cases, [], any, arith, bytes_beq_iff, bytes_eq, false, find_first, find_first-Member,
  find_first-none, inl, inr, keep, map, nat_eq, none, not, refl, true, ◌==◌, ◌||◌, ◌↔◌, ◌∷◌, ◌≡◌,
  ◌≢◌, ◌⊎◌,
}
use gateway_lite.Common.Int.{pos, int_eq, int_beq_iff}
use gateway_lite.Protocol.Messages.{SdwanInfo}
use gateway_lite.Store.Data.{Store, StoreNetwork, StoreNetworkNode, values}
use gateway_lite.Store.Networks.{serves, find_network_by_node}
use gateway_lite.Handlers.Sdwan.{build_sdwan_info, info_of, enabled_nodes, node_of, no_network}

-- A network that serves a node: it is the user's, it is enabled, and the node is a member.
abbrev pub Serves : Bytes → Bytes → StoreNetwork → Type 0
Serves user node n =
    (n.user ≡ user)
    × (n.enable ≢ pos 0)
    × (m : StoreNetworkNode) × Member m n.members
    × (m.name ≡ node)

any-name :
    (node : Bytes) (ms : List StoreNetworkNode)
    → (any (λ m. m.name == node) ms ≡ true)
      ↔ ((m : StoreNetworkNode) × Member m ms × (m.name ≡ node))
any-name node [] = ground arith
any-name node (m ∷ ms) = elim (Bool-cases (m.name == node)) [
  | inl y ↦ rw y (λ h. (m, inl refl, (bytes_beq_iff _ _).0 y), λ h. refl)
  | inr n ↦ rw n (
    λ h. let r = (any-name node ms).0 h in (r.0, inr r.1, r.2),
    λ h. elim h.1 [
      | inl e ↦ absurd (cc (n, (bytes_beq_iff _ _).1 (rw e at h.2)))
      | inr k ↦ (any-name node ms).1 (h.0, k, h.2)
    ],
  )
]

serves-Serves :
    (user node : Bytes) (n : StoreNetwork) → (serves user node n ≡ true) ↔ Serves user node n
unfolding serves
serves-Serves user node n =
    let u = bytes_beq_iff n.user user in
    let z = int_beq_iff n.enable (pos 0) in
    let a = any-name node n.members in
    elim (Bool-cases (not (n.user == user) || n.enable == pos 0)) [
      | inl y ↦ rw y (λ h. absurd (ground arith), λ p. absurd (ground (arith, y, p.0, p.1, u, z)))
      | inr k ↦ rw k (
        λ h. let r = a.0 h in (ground (arith, k, u, z), ground (arith, k, u, z), r.0, r.1, r.2),
        λ p. a.1 (p.2, p.3, p.4),
      )
    ]

enabled_nodes-keep :
    (ms : List StoreNetworkNode)
    → enabled_nodes ms ≡ map node_of (keep (λ m. not (m.enable == pos 0)) ms)
unfolding enabled_nodes
enabled_nodes-keep [] = refl
enabled_nodes-keep (m ∷ ms) = ground (arith, enabled_nodes-keep ms)

-- What the answer on a node says of the networks that are stored.
abbrev pub Describes : Store → Bytes → Bytes → SdwanInfo → Type 0
Describes s user node info =
    ((info ≡ no_network) × All (λ n. ¬ Serves user node n) (values s.stored.networks))
    ⊎ ((n : StoreNetwork) × Member n (values s.stored.networks)
        × Serves user node n
        × (info.id ≡ n.id)
        × (info.name ≡ n.name)
        × (info.gateway ≡ n.gateway)
        × (info.nodes ≡ map node_of (keep (λ m. not (m.enable == pos 0)) n.members)))

unserved :
    (order : MapOrder) (s : Store) (user node : Bytes)
    → find_first (serves user node) (order.visit (values s.stored.networks)) ≡ none
    → All (λ n. ¬ Serves user node n) (values s.stored.networks)
unserved order s user node e =
    let l = values s.stored.networks in
    let f =
      All-perm (λ n. serves user node n ≡ false) (order.visit_perm l)
        (find_first-none (serves user node) (order.visit l) e) in
    Member-All (λ n. ¬ Serves user node n) l
      (λ n m p.
        cc (All-Member (λ k. serves user node k ≡ false) l f m, (serves-Serves user node n).1 p))

-- In any order of the loop: where no stored network serves the node, the answer is empty; else it
-- has the number, name, gateway and enabled members of one that does.
pub build_sdwan_info-Describes :
    (order : MapOrder) (s : Store) (user node : Bytes)
    → Describes s user node (build_sdwan_info order s user node)
unfolding build_sdwan_info info_of find_network_by_node
build_sdwan_info-Describes order s user node =
    elim (Option-cases (find_first (serves user node) (order.visit (values s.stored.networks)))) [
      | inl e ↦ rw (e, build_sdwan_info) (inl (refl, unserved order s user node e))
      | inr (n, e) ↦
          let r = find_first-Member (serves user node) (order.visit (values s.stored.networks)) e in
          rw (e, build_sdwan_info)
            (inr (
              n,
              Member-perm n (order.visit_perm _) r.1,
              (serves-Serves user node n).0 r.0,
              refl,
              refl,
              refl,
              enabled_nodes-keep n.members,
            ))
    ]
