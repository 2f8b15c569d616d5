-- ===== src/Store/Devices.antt =====
-- The devices of store.go, by node name.
use gateway_lite.Common.{
  Bytes, List, Map, MapOrder, Option, [], bytes_eq, delete, if◌then◌else◌, insert, keep, lookup,
  nat_eq, none, some, ◌==◌,
}
use gateway_lite.Store.Data.{StoreDevice, Store, save, values, Disk}

put_devices : Disk → Store → Map Bytes StoreDevice → Store
put_devices disk s m = save disk (record s { stored = record s.stored { devices = m } })

-- A new report keeps the time of the first and the remark, where it brings none of its own.
merge_device : Bytes → StoreDevice → Option StoreDevice → StoreDevice
merge_device stamp d none = if d.addtime == [] then record d { addtime = stamp } else d
merge_device stamp d (some old) = record d {
  addtime = if d.addtime == [] then old.addtime else d.addtime;
  remark = if d.remark == [] then old.remark else d.remark;
}

unfoldable pub upsert_device : Disk → Bytes → Store → StoreDevice → Store
unfolding put_devices merge_device
upsert_device disk stamp s d =
    put_devices disk s
      (insert d.name (merge_device stamp d (lookup d.name s.stored.devices)) s.stored.devices)

unfoldable pub list_devices_by_user : MapOrder → Store → Bytes → List StoreDevice
list_devices_by_user order s user =
    keep (λ d. d.user == user) (order.visit (values s.stored.devices))

unfoldable pub rename_device : Disk → Store → Bytes → Bytes → Store
unfolding put_devices
rename_device disk s old_name new_name = elim (lookup old_name s.stored.devices) [
  | none ↦ s
  | some d ↦
      put_devices disk s
        (insert new_name (record d { name = new_name }) (delete old_name s.stored.devices))
]
