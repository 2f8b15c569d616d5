-- ===== src/Web/Tests.antt =====
-- Requests to the gateway of Sample.
use gateway_lite.Web.Members.{add_network_member_fresh}
use gateway_lite.Store.VirtualIp.{
  alloc_virtual_ip, alloc_loop, inc_ip, contains, format_ip, allocated,
}
use gateway_lite.Store.Users.{get_user, add_user}
use gateway_lite.LoginGuard.Lockout.{InWindow, last_time}
use gateway_lite.Web.Lockout.{logins, times, web_login-locked}
use gateway_lite.Web.Routes.{serve_user, post_network, post_delete, post_member, post_member_delete}
use gateway_lite.Web.Sdwan.{new_network}
use gateway_lite.Web.Owners.{Leaves, networks-Leaves}
use gateway_lite.Store.Calls.Consistent.{IsConsistent}
use gateway_lite.Web.Register.{web_login-register_user}
use gateway_lite.Web.Listing.{IsOnline, Shows, device_list_lem}
use gateway_lite.Protocol.NodeId.{node_name_to_id}
use gateway_lite.Common.Int.{int_beq_iff, int_eq, ℤ, pos}
use gateway_lite.Clock.{second}
use gateway_lite.Web.Login.{
  IsLawful, Refused, asked, Wrong, Right, web_login-authenticate, web_login_lem,
}
use gateway_lite.Web.Devices.{online_info, list_apps, device_list, get_device_log}
use gateway_lite.Web.Answers.{Waits, list_apps-old, get_device_log-new}
use gateway_lite.Web.Accounts.{
  register_user, web_login, claim_of, locked_out, register_checked, enter_user,
}
use gateway_lite.Web.{DeviceInfo, login_of, node_token, text, error_of, authenticate}
use gateway_lite.Store.Data.{StoreDevice, StoreUser, values}
use gateway_lite.Password.{check_password_strength, is_weak, classes}
use gateway_lite.LoginGuard.{allowed, login_lock_duration}
use gateway_lite.Common.Strconv.{format_uint, parse_uint}
use gateway_lite.Gateway.{done, World, Session}
use gateway_lite.Common.{
  refl, some, true, [], nat_eq, bytes_eq, Member, utf8, ◌∷◌, ◌≡◌, ◌⊎◌, arith, ◌*◌, bytes_beq_iff,
  ◌++◌, ◌+◌, lookup, lookup-insert_self, insert-Entries, ◌≢◌, ne_of_beq, ◌<◌, All,
}
use gateway_lite.Web.Sample.{
  profile, time, the_claim, same_claim, jwt, host, request, ann, network, device, office, world,
  without_users, answers, save_req, sdwan_host, changed_world, at, changed_ann, token_request,
  member_host, own_world, own, cidr, joining,
}

jwt-IsLawful : IsLawful jwt
jwt-IsLawful secret token c e =
    let y : same_claim c ≡ true = ground (arith, e) in
    let p : c ≡ the_claim = ground (
      arith,
      y,
      bytes_beq_iff c.user the_claim.user,
      bytes_beq_iff c.install_token the_claim.install_token,
      int_beq_iff c.expires_at the_claim.expires_at,
      int_beq_iff c.issued_at the_claim.issued_at,
    ) in
    (refl, λ now issued expires i x from to. rw p refl)

web_login_lem_example :
    Refused host request profile world
    ⊎ (Wrong host request profile world ⊎ Right host request profile world)
web_login_lem_example = web_login_lem host request profile world refl

signed : host.jwt.sign host.secret (claim_of host profile ann) ≡ some (utf8 "token")
unfolding format_uint
signed = refl

asked-true : (asked host request profile world).1.0 ≡ true
unfolding allowed
asked-true = refl

web_login-authenticate_example :
    ((web_login host request world).1
      ≡ done (record { status = 200; body = login_of (utf8 "token") (format_uint 77) }))
    × (authenticate (at 3600) token_request ≡ some (utf8 "annabella"))
web_login-authenticate_example =
    web_login-authenticate host request profile world ann (utf8 "token") (at 3600) token_request
      jwt-IsLawful refl asked-true refl refl signed refl refl refl (omega arith) (omega arith)

strong : (check_password_strength (utf8 "Secret#12")).0 ≡ true
unfolding check_password_strength is_weak classes
strong = refl

let_through :
    (asked (at 60) request profile (register_user host request without_users).0).1.0 ≡ true
unfolding allowed register_user register_checked enter_user get_user check_password_strength is_weak
    classes add_user
let_through = refl

web_login-register_user_example :
    ((register_user host request without_users).1
      ≡ done (record {
        status = 200;
        body = node_token (format_uint (node_name_to_id (utf8 "annabella" ++ utf8 "Secret#12")));
      }))
    × Right (at 60) request profile (register_user host request without_users).0
web_login-register_user_example =
    web_login-register_user host request profile without_users (at 60) request refl (omega arith)
      strong refl refl let_through

device_list_lem_example :
    ((i : DeviceInfo)
      → Member i (device_list host (utf8 "annabella") world)
      → Shows host (utf8 "annabella") world i)
    × ((s : Session)
        → IsOnline world s
        → s.user ≡ utf8 "annabella"
        → Member (online_info host s) (device_list host (utf8 "annabella") world))
    × ((d : StoreDevice)
        → Member d (values world.store.stored.devices)
        → d.user ≡ utf8 "annabella"
        → (i : DeviceInfo) × Member i (device_list host (utf8 "annabella") world)
          × (i.name ≡ d.name))
device_list_lem_example = device_list_lem host (utf8 "annabella") world

old-Waits : Waits 3 (utf8 "old" ∷ []) world
old-Waits = (office, refl, refl, refl, refl)

online_office : lookup (node_name_to_id (utf8 "officenode")) world.all_sessions ≡ some 3
online_office = lookup-insert_self (node_name_to_id (utf8 "officenode")) 3 []

list_apps-old_example :
    (list_apps host request world).1 ≡ done (record { status = 200; body = text (utf8 "old") })
list_apps-old_example = list_apps-old host request world 3 (utf8 "old") [] online_office old-Waits

answers-Waits : (v : World) → Waits 3 [] v → Waits 3 (utf8 "new" ∷ []) (answers v)
answers-Waits v (s, e, go, c, q) =
    rw (e, answers)
      (record s { rsp_ch = utf8 "new" ∷ [] }, lookup-insert_self 3 _ v.sessions, go, c, refl)

get_device_log-new_example :
    (get_device_log (record host { meanwhile = answers }) request world).1
    ≡ done (record { status = 200; body = text (utf8 "new") })
get_device_log-new_example =
    get_device_log-new (record host { meanwhile = answers }) request world 3 (some (utf8 "old"))
      (utf8 "new") online_office old-Waits answers-Waits

world-IsConsistent : IsConsistent world.store.stored
world-IsConsistent = record {
  users = (refl, tt);
  devices = (refl, tt);
  networks = (refl, tt);
  user_keys =
      insert-Entries (λ k u. u.user ≡ k) (utf8 "annabella") ann [] refl
        (λ k v h. absurd (grind arith));
  device_keys =
      insert-Entries (λ k d. d.name ≡ k) (utf8 "officenode") device [] refl
        (λ k v h. absurd (grind arith));
  network_keys = insert-Entries (λ k n. n.id ≡ k) 5 network [] refl (λ k v h. absurd (grind arith));
}

other_number : (new_network sdwan_host (utf8 "annabella") save_req).id ≢ 5
unfolding new_network node_name_to_id format_uint
other_number = ne_of_beq (new_network sdwan_host (utf8 "annabella") save_req).id 5 refl

networks-Leaves_example :
    Leaves 5 network (serve_user sdwan_host (utf8 "annabella") request post_network) world
    × Leaves 5 network (serve_user sdwan_host (utf8 "annabella") request post_delete) world
    × Leaves 5 network (serve_user sdwan_host (utf8 "annabella") request post_member) world
    × Leaves 5 network (serve_user sdwan_host (utf8 "annabella") request post_member_delete) world
networks-Leaves_example =
    networks-Leaves sdwan_host (utf8 "annabella") request world 5 network world-IsConsistent refl
      (ne_of_beq (utf8 "somebody") (utf8 "annabella") refl)
      (λ req h. let q : save_req ≡ req = ground arith in rw (← q) other_number)

inside_window : InWindow time (times (at 1 ∷ at 2 ∷ at 3 ∷ at 4 ∷ []))
unfolding times
inside_window = (omega arith, (omega arith, (omega arith, (omega arith, tt))))

soon :
    time + 30 * second
    < last_time time (times (at 1 ∷ at 2 ∷ at 3 ∷ at 4 ∷ [])) + login_lock_duration
unfolding times
soon = omega arith

-- The user has another password.
other_password :
    (u : StoreUser)
    → lookup (utf8 "annabella") changed_world.store.stored.users ≡ some u
    → u.password ≢ utf8 "Secret#12"
other_password u h =
    let p : changed_ann ≡ u = ground arith in
    rw (← p) (ne_of_beq (utf8 "Other#123") (utf8 "Secret#12") refl)

-- A sixth login, with any password, half a minute after the first of five.
web_login-locked_example :
    (logins request (host ∷ at 1 ∷ at 2 ∷ at 3 ∷ at 4 ∷ []) changed_world ≡ record changed_world {
      guard = (logins request (host ∷ at 1 ∷ at 2 ∷ at 3 ∷ at 4 ∷ []) changed_world).guard;
    })
    × ((wait : ℤ) × ((web_login
            (at 30)
            request
            (logins request (host ∷ at 1 ∷ at 2 ∷ at 3 ∷ at 4 ∷ []) changed_world)).1
          ≡ done (record { status = 429; body = error_of 429 (locked_out wait) })))
web_login-locked_example =
    web_login-locked request profile host (at 1 ∷ at 2 ∷ at 3 ∷ at 4 ∷ []) changed_world refl
      (refl, (refl, (refl, (refl, (refl, tt))))) other_password refl inside_window (at 30) request
      profile refl refl soon

first_address : alloc_virtual_ip member_host.parse_cidr own ≡ allocated (utf8 "10.2.3.1")
unfolding alloc_virtual_ip alloc_loop inc_ip contains format_ip format_uint
first_address = refl

five : parse_uint 64 request.id ≡ 5
unfolding parse_uint
five = refl

add_network_member_fresh_example :
    (lookup 5
        (serve_user member_host
          (utf8 "annabella")
          request
          post_member
          own_world).0.store.stored.networks
      ≡ some (record own {
        members =
            record { name = utf8 "officenode"; ip = utf8 "10.2.3.1"; resource = []; enable = pos 1 }
            ∷ [];
      }))
    × (utf8 "10.2.3.1" ≢ utf8 "10.2.3.254")
    × All (λ m. m.ip ≢ utf8 "10.2.3.1") own.members
add_network_member_fresh_example =
    add_network_member_fresh member_host (utf8 "annabella") request joining own_world own cidr
      (10 ∷ 2 ∷ 3 ∷ 0 ∷ []) (utf8 "10.2.3.1") refl (omega arith) refl refl five refl tt refl refl
      first_address
