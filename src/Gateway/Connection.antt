-- ===== src/Gateway/Connection.antt =====
-- wssession.go: the start of a session in `handleLogin`, from the request to the answer in its
-- channel, and its end in `readLoop`. A day is taken to be 24 hours.
pub mod Life
pub mod History
mod Tests
use gateway_lite.Protocol.Header.{new_message}
use gateway_lite.Common.{
  Bool, Bytes, List, Map, MapOrder, Option, [], bytes_eq, delete, false, if◌then◌else◌, insert,
  length, lookup, ltb, nat_eq, none, some, true, utf8, ℕ, ◌*◌, ◌+◌, ◌-◌, ◌==◌, ◌∷◌, ◌&&◌,
}
use gateway_lite.Common.Int.{ℤ, pos}
use gateway_lite.Common.Strconv.{parse_int, parse_uint, split}
use gateway_lite.Clock.{second, hour, unix}
use gateway_lite.Protocol.NodeId.{node_name_to_id}
use gateway_lite.Protocol.Constants.{msg_login}
use gateway_lite.Protocol.Messages.{Json, LoginRsp, login_rsp_of, Packet}
use gateway_lite.Store.Data.{StoreUser, StoreDevice, Disk}
use gateway_lite.Store.Users.{get_user_by_token}
use gateway_lite.Store.Devices.{upsert_device}
use gateway_lite.Gateway.{
  World, Session, M, ◌>>=◌, ◌>>◌, pure, gets, modify, session, put_session, write,
}

-- The query of the request, with the address that it comes from.
pub record LoginReq : Type 0 where
  pub node : Bytes
  pub token : Bytes
  pub version : Bytes
  pub nat_type : Bytes
  pub share_band_width : Bytes
  pub remote_addr : Bytes

-- What runs the gateway: its built-in user and token, and what it takes from outside.
pub record Config : Type 1 where
  pub json : Json
  pub order : MapOrder
  pub g_user : Bytes
  pub g_token : ℕ

-- The answer that is written at once, before there is a session, or the new session.
pub data Reply : Type 0 where
  refused : LoginRsp → Reply
  accepted : ℕ → Reply

abbrev pub min_node_name_len : ℕ
min_node_name_len = 8

-- A reference that no session has.
unfoldable pub fresh_ref : Map ℕ Session → ℕ
fresh_ref [] = 0
fresh_ref ((r, s) ∷ m) = let rest = fresh_ref m in if ltb r rest then rest else r + 1

first_part : List Bytes → Bytes
first_part [] = []
first_part (p ∷ ps) = p

unfoldable pub new_session : ℕ → LoginReq → Bytes → Session
unfolding first_part
new_session now req user = record {
  write_ch = [];
  rsp_ch = [];
  closed = false;
  running = true;
  node = req.node;
  share_band_width = parse_int 64 req.share_band_width;
  user = user;
  token = parse_uint 64 req.token;
  node_id = node_name_to_id req.node;
  nat_type = parse_int 64 req.nat_type;
  os = [];
  lan_ip = [];
  has_upnp_or_natpmp = pos 0;
  has_ipv4 = pos 0;
  ipv4 = first_part (split b':' req.remote_addr);
  ipv6 = [];
  mac = [];
  version = req.version;
  major_ver = pos 0;
  active_time = now;
  relay_time = now - 24 * hour;
  fail_nodes = [];
}

-- The device that a login stores.
unfoldable pub device_at_login : Session → Bytes → StoreDevice
device_at_login s stamp = record {
  name = s.node;
  user = s.user;
  os = [];
  mac = [];
  lan_ip = [];
  ipv4 = s.ipv4;
  ipv6 = [];
  nat_type = s.nat_type;
  bandwidth = s.share_band_width;
  version = s.version;
  remark = [];
  addtime = [];
  activetime = stamp;
}

abbrev refusal : ℤ → Bytes → Reply
refusal error detail =
    refused (record { error = error; detail = detail; user = []; node = []; token = 0; ts = pos 0 })

-- The user of a token: a stored one, or else the built-in one for its own token.
unfoldable pub owner_of : Config → World → ℕ → Option Bytes
owner_of env w token = elim (get_user_by_token env.order w.store token) [
  | some u ↦ some u.user
  | none ↦ if token == env.g_token then some env.g_user else none
]

-- A session takes its place in the map, and the device is stored.
unfoldable pub enter : Disk → Bytes → ℕ → Session → World → World
unfolding device_at_login
enter disk stamp ref s w = record w {
  sessions = insert ref s w.sessions;
  all_sessions = insert s.node_id ref w.all_sessions;
  store = upsert_device disk stamp w.store (device_at_login s stamp);
}

-- The session of an owner, with the answer in its channel.
unfoldable pub open_session : Config → Disk → Bytes → ℕ → LoginReq → Bytes → M Reply
open_session env disk stamp now req user = do
  ref ← gets (λ w. fresh_ref w.sessions)
  let s = new_session now req user
  modify (enter disk stamp ref s)
  write env.json ref msg_login 0 (
      login_rsp_of (record {
        error = pos 0;
        detail = [];
        user = user;
        node = s.node;
        token = s.token;
        ts = pos (unix now);
      }))
  pure (accepted ref)

unfoldable pub handle_login : Config → Disk → Bytes → ℕ → LoginReq → M Reply
handle_login env disk stamp now req =
    if ltb (length req.node) min_node_name_len
    then pure (refusal (pos 500) (utf8 "node name too short, it must >=8 charaters"))
    else (do
      owner ← gets (λ w. owner_of env w (parse_uint 64 req.token))
      elim owner [
        | none ↦ pure (refusal (pos 600) (utf8 "Invalid token"))
        | some user ↦ open_session env disk stamp now req user
      ])

-- writeSync: what the connection takes at once, past the channel. It says what it can write; a write
-- that fails is only logged.
unfoldable pub write_sync : Json → (Bytes → Bool) → Session → ℕ → ℕ → Packet → List Bytes
write_sync json takes s main_type sub_type packet =
    elim (new_message main_type sub_type (json.marshal packet)) [
      | none ↦ []
      | some msg ↦ if s.running && takes msg then msg ∷ [] else []
    ]

-- What the client reads of a login that is refused: its session is not in the map and has no owner.
unfoldable pub refused_frames : Config → (Bytes → Bool) → ℕ → LoginReq → LoginRsp → List Bytes
unfolding write_sync
refused_frames env takes now req rsp =
    write_sync env.json takes (new_session now req []) msg_login 0 (login_rsp_of rsp)

-- A session that a newer one of its node has replaced leaves the newer one in the map.
remove_session : ℕ → ℕ → Map ℕ ℕ → Map ℕ ℕ
remove_session id ref m = elim (lookup id m) [
  | none ↦ m
  | some r ↦ if r == ref then delete id m else m
]

-- A read error ends the session.
unfoldable pub read_error : ℕ → M (Unit {0})
unfolding remove_session
read_error ref = do
  s ← session ref
  modify (put_session ref (record s { running = false; closed = true }))
  modify (λ w. record w {
    all_sessions = remove_session s.node_id ref w.all_sessions;
    push_permission = delete s.node_id w.push_permission;
  })
