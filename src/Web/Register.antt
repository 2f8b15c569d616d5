-- ===== src/Web/Register.antt =====
-- webmgmt.go and web.go: a registration, and the login after it.
use gateway_lite.Web.Login.{asked, Right, web_login_lem}
use gateway_lite.Protocol.NodeId.{node_name_to_id}
use gateway_lite.Common.Strconv.{format_uint}
use gateway_lite.Gateway.Connection.{min_node_name_len}
use gateway_lite.Protocol.Messages.{ProfileInfo}
use gateway_lite.Web.{Host, Request, node_token}
use gateway_lite.Store.Data.{Disk, Store, StoreUser, stored-save}
use gateway_lite.Web.Accounts.{register_user, register_checked, enter_user, new_user}
use gateway_lite.Store.Users.{add_user, get_user}
use gateway_lite.Password.{check_password_strength}
use gateway_lite.Common.{
  refl, none, some, true, false, inl, inr, [], nat_eq, bytes_eq, Bytes, ◌≡◌, ◌==◌, lookup, ◌∷◌,
  if◌then◌else◌, insert, lookup-insert_self, arith, ◌≤◌, length, ◌++◌, ltb,
}
use gateway_lite.Gateway.{done, World}

strong-ne : (pwd : Bytes) → (check_password_strength pwd).0 ≡ true → (pwd == []) ≡ false
unfolding check_password_strength
strong-ne [] h = cc h
strong-ne (c ∷ pwd) h = refl

-- A new user stands under its name, with its password.
add_user-new :
    (disk : Disk) (stamp : Bytes) (s : Store) (u : StoreUser)
    → lookup u.user s.stored.users ≡ none
    → ((add_user disk stamp s u).1 ≡ none)
      × ((v : StoreUser) × (lookup u.user (add_user disk stamp s u).0.stored.users ≡ some v)
          × (v.password ≡ u.password)
          × (v.token ≡ u.token))
unfolding add_user
add_user-new disk stamp s u h =
    let v = if u.addtime == [] then record u { addtime = stamp } else u in
    let t = record s { stored = record s.stored { users = insert u.user v s.stored.users } } in
    let same = stored-save disk t in
    (
      rw (h, add_user) refl,
      (
        v,
        rw (h, add_user, same) (lookup-insert_self u.user v s.stored.users),
        ground arith,
        ground arith,
      ),
    )

-- A registration of a name of at least eight bytes that no stored user has, with a password that passes
-- the strength test, is answered with the node token of the two; and then a login by this name and
-- password that the guard lets through succeeds.
pub web_login-register_user :
    (host : Host) (r : Request) (req : ProfileInfo) (w : World) (later : Host) (q : Request)
    → host.web_json.profile_info r.body ≡ some req
    → min_node_name_len ≤ length req.user
    → (check_password_strength req.password).0 ≡ true
    → lookup req.user w.store.stored.users ≡ none
    → later.web_json.profile_info q.body ≡ some req
    → (asked later q req (register_user host r w).0).1.0 ≡ true
    → ((register_user host r w).1
        ≡ done (record {
          status = 200;
          body = node_token (format_uint (node_name_to_id (req.user ++ req.password)));
        }))
      × Right later q req (register_user host r w).0
unfolding register_user register_checked get_user enter_user
web_login-register_user host r req w later q e long strong free g y =
    let short : ltb (length req.user) min_node_name_len ≡ false = ground arith in
    let given = strong-ne req.password strong in
    let (a, (v, f, p, t)) =
      add_user-new host.disk host.stamp w.store (new_user req host.stamp) free in
    let whole : register_user host r w ≡ (
      record w { store = (add_user host.disk host.stamp w.store (new_user req host.stamp)).0 },
      done (record {
        status = 200;
        body = node_token (format_uint (node_name_to_id (req.user ++ req.password)));
      }),
    ) =
      rw (e, register_user, short, given, strong, free, enter_user, a) refl in
    (
      rw whole refl,
      elim (web_login_lem later q req (register_user host r w).0 g) [
        | inl n ↦ cc (n.0, y)
        | inr (inl n) ↦ absurd (n.1 v (rw whole f) p)
        | inr (inr k) ↦ k
      ],
    )
