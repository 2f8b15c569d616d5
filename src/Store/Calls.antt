-- ===== src/Store/Calls.antt =====
-- Any sequence of the store's methods: what holds of the stored data and of the file.
pub mod Consistent
pub mod Durable
use gateway_lite.Common.{Bool, Bytes, List, [], bytes_eq, nat_eq, ℕ, ◌∷◌}
use gateway_lite.Store.Data.{StoreUser, StoreDevice, StoreNetwork, Store, save, Disk}
use gateway_lite.Store.Users.{add_user, update_user_profile, ensure_user}
use gateway_lite.Store.Devices.{upsert_device, rename_device}
use gateway_lite.Store.Networks.{save_network, delete_network}

-- The methods that write.
pub data Call : Type 0 where
  adds : StoreUser → Call
  updates : Bytes → Bytes → Bytes → Call
  ensures : Bytes → Bytes → ℕ → Call
  upserts : StoreDevice → Call
  renames : Bytes → Bytes → Call
  saves : StoreNetwork → Call
  deletes : ℕ → Call

-- A call at a formatted time, where `disk` is what the disk makes of the save.
unfoldable pub step : Store → Disk × Bytes × Call → Store
step s (disk, stamp, adds u) = (add_user disk stamp s u).0
step s (disk, stamp, updates user email phone) = (update_user_profile disk s user email phone).0
step s (disk, stamp, ensures user password token) = ensure_user disk stamp s user password token
step s (disk, stamp, upserts d) = upsert_device disk stamp s d
step s (disk, stamp, renames old_name new_name) = rename_device disk s old_name new_name
step s (disk, stamp, saves n) = save_network disk s n
step s (disk, stamp, deletes id) = delete_network disk s id

unfoldable pub run : Store → List (Disk × Bytes × Call) → Store
unfolding step
run s [] = s
run s (c ∷ cs) = run (step s c) cs
