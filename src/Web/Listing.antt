-- ===== src/Web/Listing.antt =====
-- What the list of the devices shows.
use gateway_lite.Handlers.Round.{Member-deref}
use gateway_lite.Handlers.Relay.{deref, online}
use gateway_lite.Store.Data.{StoreDevice, values}
use gateway_lite.Store.Devices.{list_devices_by_user}
use gateway_lite.Web.Devices.{
  device_list, offline_devices, online_info, user_sessions, offline_info,
}
use gateway_lite.Web.{Host, DeviceInfo}
use gateway_lite.Common.{
  refl, true, inl, inr, [], nat_eq, bytes_eq, Bytes, List, Member, any, map, ◌≡◌, ◌==◌, ◌∷◌, ◌⊎◌,
  Bool-cases, ap, bytes_beq_iff, arith, keep, ◌≢◌, not, Member-keep, Member-perm,
  Member-append_left, Member-append_cases, Member-map_back, Member-map, Member-append_right, some,
  ℕ, Map, lookup, Option-cases,
}
use gateway_lite.Gateway.{Session, World}
use mathlib.Core.List.Permᴰ

any-node :
    (name : Bytes) (l : List Session)
    → any (λ s. s.node == name) l ≡ true
    → (s : Session) × Member s l × (s.node ≡ name)
any-node name [] h = cc h
any-node name (s ∷ l) h = elim (Bool-cases (s.node == name)) [
  | inl y ↦ (s, inl refl, (bytes_beq_iff s.node name).0 y)
  | inr n ↦ let (t, m, e) = any-node name l (rw n at h) in (t, inr m, e)
]

any-node_of :
    (name : Bytes) (l : List Session) (s : Session)
    → Member s l
    → s.node ≡ name
    → any (λ s. s.node == name) l ≡ true
any-node_of name [] s m e = absurd m
any-node_of name (t ∷ l) s (inl p) e =
    let y : (t.node == name) ≡ true = (bytes_beq_iff t.node name).1 (rw (← p) e) in rw y refl
any-node_of name (t ∷ l) s (inr m) e = ground (arith, any-node_of name l s m e)

-- A session of the session map.
abbrev pub IsOnline : World → Session → Type 0
IsOnline w s =
    (id : ℕ) × (ref : ℕ) × Member (id, ref) w.all_sessions × (lookup ref w.sessions ≡ some s)

Member-deref_of :
    (sessions : Map ℕ Session) (refs : List ℕ) (ref : ℕ) (s : Session)
    → Member ref refs
    → lookup ref sessions ≡ some s
    → Member (ref, s) (deref sessions refs)
unfolding deref
Member-deref_of sessions [] ref s m e = absurd m
Member-deref_of sessions (r ∷ refs) ref s (inl p) e =
    let f : lookup r sessions ≡ some s = rw (← p) e in rw (f, deref) (inl (ap (λ k. (k, s)) p))
Member-deref_of sessions (r ∷ refs) ref s (inr m) e = elim (Option-cases (lookup r sessions)) [
  | inl n ↦ rw (n, deref) (Member-deref_of sessions refs ref s m e)
  | inr (t, n) ↦ rw (n, deref) (inr (Member-deref_of sessions refs ref s m e))
]

deref-Member :
    (sessions : Map ℕ Session) (refs : List ℕ) (e : ℕ × Session)
    → Member e (deref sessions refs)
    → Member e.0 refs
unfolding deref
deref-Member sessions [] e h = absurd h
deref-Member sessions (r ∷ refs) e h = elim (Option-cases (lookup r sessions)) [
  | inl n ↦ inr (deref-Member sessions refs e (rw (n, deref) at h))
  | inr (t, n) ↦ elim (rw (n, deref) at h) [
    | inl y ↦ inl (ap (λ (x : ℕ × Session). x.0) y)
    | inr m ↦ inr (deref-Member sessions refs e m)
  ]
]

-- The loop lists the sessions of the map whose user this is.
user_sessions_iff :
    (host : Host) (user : Bytes) (w : World) (s : Session)
    → (Member s (user_sessions host user w) → IsOnline w s × (s.user ≡ user))
      × (IsOnline w s → s.user ≡ user → Member s (user_sessions host user w))
unfolding user_sessions online
user_sessions_iff host user w s =
    let ref_of = λ (p : ℕ × ℕ). p.1 in
    let second = λ (e : ℕ × Session). e.1 in
    let refs = map ref_of w.all_sessions in
    let perm = host.order.visit_perm refs in
    let es = deref w.sessions (host.order.visit refs) in
    (
      λ m.
          let (a, y) = (Member-keep (λ (s : Session). s.user == user) (map second es) s).0 m in
          let (e, b, p) = Member-map_back second es s a in
          let r = Member-perm e.0 perm (deref-Member w.sessions _ e b) in
          let (q, c, f) = Member-map_back ref_of w.all_sessions e.0 r in
          (
            (q.0, q.1, c, rw (← f, p) (Member-deref w.sessions _ e b)),
            (bytes_beq_iff s.user user).0 y,
          ),
      λ (id, ref, m, f) u.
          let a =
            Member-perm ref (Permᴰ.symm perm) (Member-map ref_of w.all_sessions (id, ref) m) in
          let b = Member-deref_of w.sessions _ ref s a f in
          (Member-keep (λ (s : Session). s.user == user) (map second es) s).1
            (Member-map second es (ref, s) b, (bytes_beq_iff s.user user).1 u),
    )

-- What an entry of the list shows: a session of the map whose user this is, or a stored device of the
-- user that no such session has the name of.
abbrev pub Shows : Host → Bytes → World → DeviceInfo → Type 0
Shows host user w i =
    ((s : Session) × IsOnline w s × (s.user ≡ user) × (i ≡ online_info host s))
    ⊎ ((d : StoreDevice) × Member d (values w.store.stored.devices)
        × (d.user ≡ user)
        × ((s : Session) → IsOnline w s → s.user ≡ user → s.node ≢ d.name)
        × (i ≡ offline_info d))

-- Every entry of the list is of a session of the map with this user, or else of a stored device of
-- the user whose name no such session has; every session of the map with this user is in the list;
-- and every stored device of the user is in the list by its name.
pub device_list_lem :
    (host : Host) (user : Bytes) (w : World)
    → ((i : DeviceInfo) → Member i (device_list host user w) → Shows host user w i)
      × ((s : Session)
          → IsOnline w s
          → s.user ≡ user
          → Member (online_info host s) (device_list host user w))
      × ((d : StoreDevice)
          → Member d (values w.store.stored.devices)
          → d.user ≡ user
          → (i : DeviceInfo) × Member i (device_list host user w) × (i.name ≡ d.name))
unfolding device_list offline_devices list_devices_by_user online_info offline_info
device_list_lem host user w =
    let ss = user_sessions host user w in
    let seen = λ (d : StoreDevice). any (λ s. s.node == d.name) ss in
    let perm = host.order.visit_perm (values w.store.stored.devices) in
    let mine = keep (λ d. d.user == user) (host.order.visit (values w.store.stored.devices)) in
    (
      λ i m. elim (Member-append_cases (map (online_info host) ss) _ i m) [
        | inl k ↦
            let (s, a, e) = Member-map_back (online_info host) ss i k in
            let (o, u) = (user_sessions_iff host user w s).0 a in inl (s, o, u, e)
        | inr k ↦
            let (d, a, e) = Member-map_back offline_info (keep (λ d. not (seen d)) mine) i k in
            let (b, n) = (Member-keep (λ d. not (seen d)) mine d).0 a in
            let (c, y) = (Member-keep (λ d. d.user == user) _ d).0 b in
            inr (
              d,
              Member-perm d perm c,
              (bytes_beq_iff d.user user).0 y,
              λ s o u p.
                  cc (n, any-node_of d.name ss s ((user_sessions_iff host user w s).1 o u) p),
              e,
            )
      ],
      λ s o u.
          Member-append_left _ _ _
            (Member-map (online_info host) ss s ((user_sessions_iff host user w s).1 o u)),
      λ d m e. elim (Bool-cases (seen d)) [
        | inl y ↦
            let (s, k, p) = any-node d.name ss y in
            (online_info host s, Member-append_left _ _ _ (Member-map (online_info host) ss s k), p)
        | inr n ↦
            let k =
              (Member-keep (λ d. d.user == user) _ d).1
                (Member-perm d (Permᴰ.symm perm) m, (bytes_beq_iff d.user user).1 e) in
            let o = (Member-keep (λ d. not (seen d)) mine d).1 (k, ap not n) in
            (
              offline_info d,
              Member-append_right (map (online_info host) ss) _ _ (Member-map offline_info _ d o),
              refl,
            )
      ],
    )
