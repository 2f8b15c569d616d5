-- ===== src/Store/Calls/Durable.antt =====
-- What is in the file.
use gateway_lite.Common.{Bytes, List, [], arith, bytes_eq, map, nat_eq, refl, ℕ, ◌∷◌, ◌≡◌, some}
use gateway_lite.Store.Data.{StoreData, StoreJson, Store, File, Disk, save, new_store}
use gateway_lite.Store.Users.{add_user, update_user_profile, ensure_user}
use gateway_lite.Store.Devices.{upsert_device, rename_device}
use gateway_lite.Store.Networks.{save_network, delete_network}
use gateway_lite.Store.Calls.{
  Call, adds, updates, ensures, upserts, renames, saves, deletes, step, run,
}

module _ (json : StoreJson) where
  -- A disk that takes the data as JSON.
  abbrev pub writes : Disk
  writes d = some (json.marshal d)

  -- The file holds what is in memory.
  abbrev pub IsDurable : Store → Type 0
  IsDurable s = s.file ≡ some (json.marshal s.stored)

  -- A call that can write the file changes nothing, or leaves all of its data in the file.
  step-IsDurable :
      (s : Store) (stamp : Bytes) (c : Call) → IsDurable s → IsDurable (step s (writes, stamp, c))
  unfolding step add_user update_user_profile ensure_user upsert_device rename_device save_network
      delete_network save
  step-IsDurable s stamp (adds u) d = ground arith
  step-IsDurable s stamp (updates user email phone) d = ground arith
  step-IsDurable s stamp (ensures user password token) d = ground arith
  step-IsDurable s stamp (upserts v) d = refl
  step-IsDurable s stamp (renames old_name new_name) d = ground arith
  step-IsDurable s stamp (saves n) d = refl
  step-IsDurable s stamp (deletes id) d = refl

  -- Calls that all can write the file.
  abbrev pub written_calls : List (Bytes × Call) → List (Disk × Bytes × Call)
  written_calls cs = map (λ c. (writes, c.0, c.1)) cs

  run-IsDurable :
      (s : Store) (cs : List (Bytes × Call)) → IsDurable s → IsDurable (run s (written_calls cs))
  unfolding run
  run-IsDurable s [] d = d
  run-IsDurable s ((stamp, c) ∷ cs) d =
      run-IsDurable (step s (writes, stamp, c)) cs (step-IsDurable s stamp c d)

  ensure_user-IsDurable :
      (s : Store) (stamp user password : Bytes) (token : ℕ)
      → IsDurable (ensure_user writes stamp s user password token)
  unfolding ensure_user save
  ensure_user-IsDurable s stamp user password token = ground arith

  -- The JSON of the data gives the data back, as that of data whose texts are UTF-8 does.
  abbrev pub ReadsBack : StoreData → Type 0
  ReadsBack d =
      json.unmarshal (json.marshal d)
      ≡ some (record { users = some d.users; devices = some d.devices; networks = some d.networks })

  reload :
      (s : Store) → IsDurable s → ReadsBack s.stored → (new_store json s.file).stored ≡ s.stored
  unfolding new_store
  reload s d r = ground (arith, d, r)

  -- The data after a start from a file, the entry of the built-in user and more calls.
  abbrev pub started : File → Bytes → Bytes → Bytes → ℕ → List (Bytes × Call) → Store
  started file stamp user password token cs =
      run (ensure_user writes stamp (new_store json file) user password token) (written_calls cs)

  -- The gateway starts from any file and enters the built-in user. After any calls that could write
  -- the file, a restart from that file finds exactly the data that was in memory, where the JSON of
  -- that data gives it back.
  pub restart :
      (file : File) (stamp user password : Bytes) (token : ℕ) (cs : List (Bytes × Call))
      → ReadsBack (started file stamp user password token cs).stored
      → (new_store json (started file stamp user password token cs).file).stored
        ≡ (started file stamp user password token cs).stored
  restart file stamp user password token cs r =
      reload (started file stamp user password token cs)
        (run-IsDurable _ cs (ensure_user-IsDurable (new_store json file) stamp user password token))
        r
