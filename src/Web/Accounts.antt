-- ===== src/Web/Accounts.antt =====
-- web.go and webmgmt.go: the login of the web interface, registration and the profile.
use gateway_lite.Gateway.{◌>>=◌, ◌>>◌, done, gets, modify}
use gateway_lite.Web.{wrong_request, text, login_of}
use gateway_lite.Gateway.Connection.{min_node_name_len}
use gateway_lite.Password.{constant_time_equal, check_password_strength}
use gateway_lite.Clock.{unix}
use gateway_lite.Store.Users.{add_user, get_user, update_user_profile}
use gateway_lite.Protocol.NodeId.{node_name_to_id}
use gateway_lite.Common.Strconv.{format_uint, format_int}
use gateway_lite.Web.{
  Host, Request, Claim, Response, reply, error_of, update_of, node_token, ok, profile_of,
}
use gateway_lite.Store.Data.{StoreUser}
use gateway_lite.Protocol.Messages.{ProfileInfo}
use gateway_lite.Common.Int.{ℤ, pos}
use gateway_lite.Gateway.{done, M}
use gateway_lite.Common.{
  Bytes, none, some, [], nat_eq, bytes_eq, utf8, ℕ, Bool, Option, ◌++◌, if◌then◌else◌, ltb, length,
  ◌||◌, ◌==◌, not,
}
use gateway_lite.LoginGuard.{allowed, on_failure, on_success}

-- updateInfo
abbrev pub update_info : M Response
update_info = reply 200 (update_of (record { error = pos 0; error_detail = []; url = [] }))

-- guardKey
abbrev pub guard_key : Request → ProfileInfo → Bytes
guard_key r req = r.client_ip ++ (utf8 "|" ++ req.user)

abbrev pub wrong_form : Bytes
wrong_form = utf8 "请求格式错误"

abbrev pub wrong_login : Bytes
wrong_login = utf8 "用户名或密码错误"

abbrev pub locked_out : ℤ → Bytes
locked_out wait = utf8 "登录失败次数过多，请" ++ (format_int wait ++ utf8 "秒后重试")

-- gLoginGuard.allowed
unfoldable pub ask_guard : Bytes → ℕ → ℕ → M (Bool × ℤ)
ask_guard key now later w =
    let a = allowed w.guard key now later in (record w { guard = a.0 }, done a.1)

abbrev pub claim_of : Host → ProfileInfo → StoreUser → Claim
claim_of host req u = record {
  user = req.user;
  install_token = format_uint u.token;
  expires_at = pos (unix (host.add_day host.now));
  issued_at = pos (unix host.now);
}

-- A token that cannot be signed leaves the answer empty.
unfoldable pub accept : Host → Bytes → ProfileInfo → StoreUser → M Response
accept host key req u = do
  modify (λ w. record w { guard = on_success w.guard key })
  elim (host.jwt.sign host.secret (claim_of host req u)) [
    | none ↦ reply 200 (text [])
    | some token ↦ reply 200 (login_of token (format_uint u.token))
  ]

unfoldable pub refuse : ℕ → Bytes → M Response
refuse now key = do
  modify (λ w. record w { guard = on_failure w.guard key now })
  reply 401 (error_of 401 wrong_login)

-- What follows when the user has been looked up.
unfoldable pub check_password : Host → Bytes → ProfileInfo → Option StoreUser → M Response
check_password host key req none = refuse host.now key
check_password host key req (some u) =
    if constant_time_equal u.password req.password
    then accept host key req u
    else refuse host.now key

unfoldable pub login_as : Host → Bytes → ProfileInfo → M Response
login_as host key req = do
  answer ← ask_guard key host.now host.later
  if answer.0
      then (do u ← gets (λ w. get_user w.store req.user); check_password host key req u)
      else reply 429 (error_of 429 (locked_out answer.1))

unfoldable pub web_login : Host → Request → M Response
web_login host r = elim (host.web_json.profile_info r.body) [
  | none ↦ reply 400 (error_of 1 wrong_form)
  | some req ↦ login_as host (guard_key r req) req
]

abbrev pub new_user : ProfileInfo → Bytes → StoreUser
new_user req stamp = record {
  user = req.user;
  password = req.password;
  token = node_name_to_id (req.user ++ req.password);
  email = req.email;
  phone = req.phone;
  addtime = stamp;
}

-- gStore.addUser, and what follows.
unfoldable pub enter_user : Host → StoreUser → M Response
enter_user host u w = elim (add_user host.disk host.stamp w.store u).1 [
  | some e ↦
      reply 400 (error_of 4 e) (record w { store = (add_user host.disk host.stamp w.store u).0 })
  | none ↦
      reply 200 (node_token (format_uint u.token))
        (record w { store = (add_user host.disk host.stamp w.store u).0 })
]

-- The checks of a registration, in the order of the code.
unfoldable pub register_checked : Host → ProfileInfo → M Response
register_checked host req w =
    if ltb (length req.user) min_node_name_len || req.password == []
    then reply 400 (error_of 2 (utf8 "user must >=8 chars and password required")) w
    else if not (check_password_strength req.password).0
    then reply 400 (error_of 5 (check_password_strength req.password).1) w
    else elim (get_user w.store req.user) [
      | some u ↦ reply 400 (error_of 3 (utf8 "user already exists")) w
      | none ↦ enter_user host (new_user req host.stamp) w
    ]

unfoldable pub register_user : Host → Request → M Response
register_user host r = elim (host.web_json.profile_info r.body) [
  | none ↦ reply 400 (error_of 1 wrong_request)
  | some req ↦ register_checked host req
]

-- The profile as it is shown: the password stays.
abbrev pub shown_profile : StoreUser → ProfileInfo
shown_profile u = record {
  user = u.user;
  password = [];
  email = u.email;
  phone = u.phone;
  token = format_uint u.token;
  addtime = u.addtime;
}

unfoldable pub get_profile : Bytes → M Response
get_profile user w = elim (get_user w.store user) [
  | none ↦ reply 200 (error_of 1 (utf8 "user not found")) w
  | some u ↦ reply 200 (profile_of (shown_profile u)) w
]

-- gStore.updateUserProfile, and what follows.
unfoldable pub change_profile : Host → Bytes → ProfileInfo → M Response
change_profile host user req w =
    let changed = update_user_profile host.disk w.store user req.email req.phone in
    elim changed.1 [
      | some e ↦ reply 200 (error_of 2 e) (record w { store = changed.0 })
      | none ↦ reply 200 ok (record w { store = changed.0 })
    ]

unfoldable pub update_profile : Host → Bytes → Request → M Response
update_profile host user r = elim (host.web_json.profile_info r.body) [
  | none ↦ reply 400 (error_of 1 wrong_request)
  | some req ↦ change_profile host user req
]
