-- ===== src/Store/Users.antt =====
-- The users of store.go. `disk` is what the disk makes of a save, `stamp` the formatted time of the
-- call.
pub mod Lookup
use gateway_lite.Common.{
  Bool, Bytes, MapOrder, Option, [], bytes_eq, find_first, if◌then◌else◌, insert, lookup, nat_eq,
  none, some, utf8, ℕ, ◌==◌,
}
use gateway_lite.Store.Data.{StoreUser, Store, save, values, Disk}

unfoldable pub get_user : Store → Bytes → Option StoreUser
get_user s user = lookup user s.stored.users

-- The loop goes over the map in the runtime's order, and returns at the first match.
unfoldable pub get_user_by_token : MapOrder → Store → ℕ → Option StoreUser
get_user_by_token order s token =
    find_first (λ u. u.token == token) (order.visit (values s.stored.users))

put_user : Disk → Store → Bytes → StoreUser → Store
put_user disk s key u =
    save disk (record s { stored = record s.stored { users = insert key u s.stored.users } })

abbrev pub user_exists : Bytes
user_exists = utf8 "user already exists"

abbrev pub user_not_found : Bytes
user_not_found = utf8 "user not found"

-- The new store, and the error if there is one.
unfoldable pub add_user : Disk → Bytes → Store → StoreUser → Store × Option Bytes
unfolding put_user
add_user disk stamp s u = elim (lookup u.user s.stored.users) [
  | some old ↦ (s, some user_exists)
  | none ↦
      (put_user disk s u.user (if u.addtime == [] then record u { addtime = stamp } else u), none)
]

unfoldable pub update_user_profile : Disk → Store → Bytes → Bytes → Bytes → Store × Option Bytes
unfolding put_user
update_user_profile disk s user email phone = elim (lookup user s.stored.users) [
  | none ↦ (s, some user_not_found)
  | some u ↦ (put_user disk s user (record u { email = email; phone = phone }), none)
]

unfoldable pub ensure_user : Disk → Bytes → Store → Bytes → Bytes → ℕ → Store
unfolding put_user
ensure_user disk stamp s user password token = elim (lookup user s.stored.users) [
  | some u ↦ put_user disk s user (record u { password = password; token = token })
  | none ↦ put_user disk s user (record {
    user = user;
    password = password;
    token = token;
    email = [];
    phone = [];
    addtime = stamp;
  })
]
