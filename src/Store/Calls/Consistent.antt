-- ===== src/Store/Calls/Consistent.antt =====
-- Every record stands under its own key.
use gateway_lite.Common.{
  Bytes, Entries, IsMap, List, Map, Option-cases, [], arith, bytes_eq, delete-Entries, delete-IsMap,
  inl, inr, insert, insert-Entries, insert-IsMap, lookup, nat_eq, refl, ℕ, ◌∷◌, ◌≡◌, none,
}
use gateway_lite.Store.Data.{
  StoreUser, StoreDevice, StoreNetwork, StoreData, Store, StoreJson, save, stored-save, new_store,
  Disk,
}
use gateway_lite.Store.Users.{add_user, update_user_profile, ensure_user}
use gateway_lite.Store.Devices.{upsert_device, rename_device}
use gateway_lite.Store.Networks.{save_network, delete_network}
use gateway_lite.Store.Calls.{
  Call, adds, updates, ensures, upserts, renames, saves, deletes, step, run,
}

-- No key has two entries, and a record's name or number is the key that it is stored under.
pub record IsConsistent (d : StoreData) : Type 0 where
  pub users : IsMap d.users
  pub devices : IsMap d.devices
  pub networks : IsMap d.networks
  pub user_keys : Entries (λ k u. u.user ≡ k) d.users
  pub device_keys : Entries (λ k v. v.name ≡ k) d.devices
  pub network_keys : Entries (λ k n. n.id ≡ k) d.networks

module _ (disk : Disk) (s : Store) (c : IsConsistent s.stored) where
  users-IsConsistent :
      (key : Bytes) (u : StoreUser)
      → u.user ≡ key
      → IsConsistent
          (save disk
            (record s { stored = record s.stored { users = insert key u s.stored.users } })).stored
  users-IsConsistent key u e = rw stored-save (record {
    users = insert-IsMap key u s.stored.users c.users;
    devices = c.devices;
    networks = c.networks;
    user_keys = insert-Entries (λ k u. u.user ≡ k) key u s.stored.users e c.user_keys;
    device_keys = c.device_keys;
    network_keys = c.network_keys;
  })

  devices-IsConsistent :
      (m : Map Bytes StoreDevice)
      → IsMap m
      → Entries (λ k v. v.name ≡ k) m
      → IsConsistent (save disk (record s { stored = record s.stored { devices = m } })).stored
  devices-IsConsistent m h e = rw stored-save (record {
    users = c.users;
    devices = h;
    networks = c.networks;
    user_keys = c.user_keys;
    device_keys = e;
    network_keys = c.network_keys;
  })

  networks-IsConsistent :
      (m : Map ℕ StoreNetwork)
      → IsMap m
      → Entries (λ k v. v.id ≡ k) m
      → IsConsistent (save disk (record s { stored = record s.stored { networks = m } })).stored
  networks-IsConsistent m h e = rw stored-save (record {
    users = c.users;
    devices = c.devices;
    networks = h;
    user_keys = c.user_keys;
    device_keys = c.device_keys;
    network_keys = e;
  })

module _ (disk : Disk) (stamp : Bytes) (s : Store) (c : IsConsistent s.stored) where
  add_user-IsConsistent : (u : StoreUser) → IsConsistent (add_user disk stamp s u).0.stored
  unfolding add_user
  add_user-IsConsistent u = elim (Option-cases (lookup u.user s.stored.users)) [
    | inr (old, e) ↦ rw (e, add_user) c
    | inl e ↦ rw (e, add_user) (users-IsConsistent disk s c u.user _ (ground arith))
  ]

  update_user_profile-IsConsistent :
      (user email phone : Bytes)
      → IsConsistent (update_user_profile disk s user email phone).0.stored
  unfolding update_user_profile
  update_user_profile-IsConsistent user email phone =
      elim (Option-cases (lookup user s.stored.users)) [
        | inl e ↦ rw (e, update_user_profile) c
        | inr (u, e) ↦
            rw (e, update_user_profile) (users-IsConsistent disk s c user _ (c.user_keys user u e))
      ]

  ensure_user-IsConsistent :
      (user password : Bytes) (token : ℕ)
      → IsConsistent (ensure_user disk stamp s user password token).stored
  unfolding ensure_user
  ensure_user-IsConsistent user password token = elim (Option-cases (lookup user s.stored.users)) [
    | inl e ↦ rw (e, ensure_user) (users-IsConsistent disk s c user _ refl)
    | inr (u, e) ↦ rw (e, ensure_user) (users-IsConsistent disk s c user _ (c.user_keys user u e))
  ]

  upsert_device-IsConsistent :
      (d : StoreDevice) → IsConsistent (upsert_device disk stamp s d).stored
  unfolding upsert_device
  upsert_device-IsConsistent d =
      devices-IsConsistent disk s c _ (insert-IsMap d.name _ s.stored.devices c.devices)
        (insert-Entries (λ k v. v.name ≡ k) d.name _ s.stored.devices (ground arith) c.device_keys)

  rename_device-IsConsistent :
      (old_name new_name : Bytes) → IsConsistent (rename_device disk s old_name new_name).stored
  unfolding rename_device
  rename_device-IsConsistent old_name new_name =
      elim (Option-cases (lookup old_name s.stored.devices)) [
        | inl e ↦ rw (e, rename_device) c
        | inr (d, e) ↦
            rw (e, rename_device)
              (devices-IsConsistent disk s c _
                (insert-IsMap new_name _ _ (delete-IsMap old_name s.stored.devices c.devices))
                (insert-Entries (λ k v. v.name ≡ k) new_name _ _ refl
                  (delete-Entries (λ k v. v.name ≡ k) old_name s.stored.devices c.device_keys)))
      ]

  save_network-IsConsistent : (n : StoreNetwork) → IsConsistent (save_network disk s n).stored
  unfolding save_network
  save_network-IsConsistent n =
      networks-IsConsistent disk s c _ (insert-IsMap n.id n s.stored.networks c.networks)
        (insert-Entries (λ k v. v.id ≡ k) n.id n s.stored.networks refl c.network_keys)

  delete_network-IsConsistent : (id : ℕ) → IsConsistent (delete_network disk s id).stored
  unfolding delete_network
  delete_network-IsConsistent id =
      networks-IsConsistent disk s c _ (delete-IsMap id s.stored.networks c.networks)
        (delete-Entries (λ k v. v.id ≡ k) id s.stored.networks c.network_keys)

pub step-IsConsistent :
    (s : Store) (disk : Disk) (stamp : Bytes) (c : Call)
    → IsConsistent s.stored
    → IsConsistent (step s (disk, stamp, c)).stored
unfolding step
step-IsConsistent s disk stamp (adds u) v = add_user-IsConsistent disk stamp s v u
step-IsConsistent s disk stamp (updates user email phone) v =
    update_user_profile-IsConsistent disk stamp s v user email phone
step-IsConsistent s disk stamp (ensures user password token) v =
    ensure_user-IsConsistent disk stamp s v user password token
step-IsConsistent s disk stamp (upserts d) v = upsert_device-IsConsistent disk stamp s v d
step-IsConsistent s disk stamp (renames old_name new_name) v =
    rename_device-IsConsistent disk stamp s v old_name new_name
step-IsConsistent s disk stamp (saves n) v = save_network-IsConsistent disk stamp s v n
step-IsConsistent s disk stamp (deletes id) v = delete_network-IsConsistent disk stamp s v id

-- A new store that finds no file.
pub empty-IsConsistent : (json : StoreJson) → IsConsistent (new_store json none).stored
unfolding new_store
empty-IsConsistent json = record {
  users = tt;
  devices = tt;
  networks = tt;
  user_keys = λ k v h. absurd (grind arith);
  device_keys = λ k v h. absurd (grind arith);
  network_keys = λ k v h. absurd (grind arith);
}

-- Whatever methods are called, and whether the file can be written or not, every record stays
-- stored once, under its own name or number.
pub run-IsConsistent :
    (s : Store) (cs : List (Disk × Bytes × Call))
    → IsConsistent s.stored
    → IsConsistent (run s cs).stored
unfolding run
run-IsConsistent s [] v = v
run-IsConsistent s ((disk, stamp, c) ∷ cs) v =
    run-IsConsistent (step s (disk, stamp, c)) cs (step-IsConsistent s disk stamp c v)
