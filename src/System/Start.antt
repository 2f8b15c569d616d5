-- ===== src/System/Start.antt =====
-- `main` of openp2p.go up to the loops: the parameters, the store with the built-in user, and no
-- sessions yet.
use gateway_lite.Protocol.NodeId.{node_name_to_id}
use gateway_lite.Gateway.Sound.{IsSound}
use gateway_lite.Store.Calls.Consistent.{IsConsistent, step-IsConsistent}
use gateway_lite.Gateway.{World}
use gateway_lite.Store.Users.{ensure_user}
use gateway_lite.Store.Data.{Store, StoreJson, Disk, File, StoreUser, new_store, stored-save}
use gateway_lite.Environment.{parse_params, Params}
use gateway_lite.Common.{
  refl, none, some, inl, inr, [], nat_eq, bytes_eq, Bytes, Option, arith, ℕ, List, lookup, ◌≡◌, All,
  Option-cases, lookup-insert_self, ◌++◌, Bool-cases, ◌==◌, ◌||◌,
}
use gateway_lite.Store.Calls.{step, ensures}
use gateway_lite.System.{Event, IsQuiet, history, history-IsSound}

-- The world before the first event.
unfoldable pub empty_world : Store → World
empty_world store = record {
  sessions = [];
  all_sessions = [];
  push_permission = [];
  store = store;
  connect_result = [];
  online_nodes = [];
  udp_sent = [];
  guard = [];
}

-- The start with these environment variables; none where main gives up.
unfoldable pub start : StoreJson → File → Disk → Bytes → Bytes → Bytes → Option (Params × World)
start json file disk stamp user password = elim (parse_params user password) [
  | none ↦ none
  | some p ↦ some (
    p,
    empty_world (ensure_user disk stamp (new_store json file) p.g_user p.g_password p.g_token),
  )
]

empty_world-IsSound : (store : Store) → IsConsistent store.stored → IsSound (empty_world store)
unfolding empty_world
empty_world-IsSound store c = record {
  live = record {
    entries = λ id ref h. absurd (grind arith);
    channels = λ ref s h. absurd (grind arith);
  };
  consistent = c;
}

-- The built-in user is stored with the password and the token.
ensure_user-stores :
    (disk : Disk) (stamp : Bytes) (s : Store) (user password : Bytes) (token : ℕ)
    → (u : StoreUser) × (lookup user (ensure_user disk stamp s user password token).stored.users
        ≡ some u)
      × (u.password ≡ password)
      × (u.token ≡ token)
unfolding ensure_user
ensure_user-stores disk stamp s user password token =
    elim (Option-cases (lookup user s.stored.users)) [
      | inl e ↦
          let u : StoreUser = record {
            user = user;
            password = password;
            token = token;
            email = [];
            phone = [];
            addtime = stamp;
          } in
          (u, rw (e, ensure_user, stored-save disk _) (lookup-insert_self user u _), refl, refl)
      | inr (v, e) ↦
          let u : StoreUser = record v { password = password; token = token } in
          (u, rw (e, ensure_user, stored-save disk _) (lookup-insert_self user u _), refl, refl)
    ]

-- A start with a user and a password, from a file whose records stand under their own names and numbers,
-- or from none, has the built-in user in the store with this password and with the token of the two;
-- and over any events after it every node of the session map keeps a running session with its own
-- number, no channel is closed while its session runs, and every record of the store stays stored
-- once, under its own name or number; as long as the rest of the gateway keeps this while a web request
-- waits.
pub start-IsSound :
    (json : StoreJson) (file : File) (disk : Disk) (stamp user password : Bytes) (p : Params)
    (w : World) (es : List Event)
    → start json file disk stamp user password ≡ some (p, w)
    → IsConsistent (new_store json file).stored
    → All IsQuiet es
    → ((u : StoreUser) × (lookup user w.store.stored.users ≡ some u)
        × (u.password ≡ password)
        × (u.token ≡ node_name_to_id (user ++ password)))
      × IsSound (history w es)
unfolding start parse_params empty_world step
start-IsSound json file disk stamp user password p w es e c quiet =
    elim (Bool-cases (user == [] || password == [])) [
      | inl y ↦ cc (rw (start, parse_params, y) at e)
      | inr n ↦
          let s =
            ensure_user disk stamp (new_store json file) user password
              (node_name_to_id (user ++ password)) in
          let q : some (_, empty_world s) ≡ some (p, w) = rw (start, parse_params, n) at e in
          let same : empty_world s ≡ w = ground arith in
          let sound : IsConsistent s.stored =
            step-IsConsistent (new_store json file) disk stamp
              (ensures user password (node_name_to_id (user ++ password))) c in
          rw (← same) (
            ensure_user-stores disk stamp (new_store json file) user password _,
            history-IsSound (empty_world s) es quiet (empty_world-IsSound s sound),
          )
    ]
