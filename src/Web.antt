-- ===== src/Web.antt =====
-- web.go and webmgmt.go: the requests of the web interface. A request runs over the same world as
-- the handlers of the nodes. gin, golang-jwt, encoding/json and the clock are taken from outside; gin
-- turns a panic of a request into status 500 and goes on. The headers of an answer are left out.
pub mod Accounts
pub mod Devices
pub mod Sdwan
pub mod Routes
pub mod Stable
pub mod Invariant
pub mod Login
pub mod Lockout
pub mod Register
pub mod Owners
pub mod Removal
pub mod Members
mod Notices
pub mod Answers
mod Sample
mod Tests
pub mod Listing
use gateway_lite.Clock.{unix}
use gateway_lite.Store.Data.{Disk, StoreNetwork}
use gateway_lite.Store.VirtualIp.{Cidr}
use gateway_lite.Gateway.{M, pure, World}
use gateway_lite.Common.Int.{ℤ, ltb_ℤ, pos}
use gateway_lite.Common.{
  Bytes, none, some, [], nat_eq, bytes_eq, MapOrder, Option, if◌then◌else◌, ℕ, Bool, ◌==◌, List,
  utf8,
}
use gateway_lite.Protocol.Messages.{Json, ProfileInfo, EditNode, AppInfo, UpdateInfo}

pub record SaveNetworkReq : Type 0 where
  pub id : ℕ
  pub name : Bytes
  pub gateway : Bytes
  pub mode : Bytes
  pub central_node : Bytes
  pub force_relay : ℤ
  pub punch_priority : ℤ
  pub enable : ℤ
  pub tunnel_num : ℤ
  pub mtu : ℤ

pub record MemberReq : Type 0 where
  pub name : Bytes
  pub ip : Bytes
  pub resource : Bytes
  pub enable : ℤ

pub record DeviceInfo : Type 0 where
  pub id : Bytes
  pub name : Bytes
  pub ip : Bytes
  pub ipv6 : Bytes
  pub nat_type : Bytes
  pub bandwidth : Bytes
  pub lan_ip : Bytes
  pub mac : Bytes
  pub os : Bytes
  pub is_active : ℕ
  pub version : Bytes
  pub remark : Bytes
  pub removed : ℕ
  pub activetime : Bytes
  pub addtime : Bytes
  pub is_update : Bool

-- gin.H and the other values that are answered as JSON; `text` is a string as it is.
pub data Body : Type 0 where
  text : Bytes → Body
  ok : Body
  error_of : ℕ → Bytes → Body
  login_of : Bytes → Bytes → Body
  node_token : Bytes → Body
  profile_of : ProfileInfo → Body
  networks_of : List StoreNetwork → Body
  network_id : Bytes → Body
  member_ip : Bytes → Body
  devices_of : List DeviceInfo → Body
  update_of : UpdateInfo → Body

pub record Response : Type 0 where
  pub status : ℕ
  pub body : Body

abbrev pub reply : ℕ → Body → M Response
reply status body = pure (record { status = status; body = body })

-- OpenP2PClaim
pub record Claim : Type 0 where
  pub user : Bytes
  pub install_token : Bytes
  pub expires_at : ℤ
  pub issued_at : ℤ

-- golang-jwt: the text of a claim signed by a key, whether the header of a text names an HMAC
-- algorithm, and what a key makes of such a text at a time: the claim, and `token.Valid`.
pub record Jwt : Type 0 where
  pub sign : Bytes → Claim → Option Bytes
  pub is_hmac : Bytes → Bool
  pub verify : Bytes → ℕ → Bytes → Option (Claim × Bool)

-- json.Unmarshal into each kind of request.
pub record WebJson : Type 0 where
  pub profile_info : Bytes → Option ProfileInfo
  pub edit_node : Bytes → Option EditNode
  pub app_info : Bytes → Option AppInfo
  pub save_network_req : Bytes → Option SaveNetworkReq
  pub member_req : Bytes → Option MemberReq

-- What runs the requests: the secret and the built-in user of the gateway, the libraries, and the
-- readings of one request: the clock (`later` is read after `now`), the formatted time, the
-- disk, and what the rest of the gateway does while the request waits for an answer.
pub record Host : Type 1 where
  pub json : Json
  pub web_json : WebJson
  pub jwt : Jwt
  pub secret : Bytes
  pub g_user : Bytes
  pub order : MapOrder
  pub parse_cidr : Bytes → Option Cidr
  pub cidr_error : Bytes → Bytes
  pub add_day : ℕ → ℕ
  pub local_time : ℕ → Bytes
  pub disk : Disk
  pub stamp : Bytes
  pub now : ℕ
  pub later : ℕ
  pub meanwhile : World → World

-- What the requests read of gin.Context: the header, the body, the parameters of the path and of
-- the query, and the address.
pub record Request : Type 0 where
  pub authorization : Option Bytes
  pub body : Bytes
  pub name : Bytes
  pub id : Bytes
  pub offset : Bytes
  pub len : Bytes
  pub client_ip : Bytes

-- The keyfunc gives the secret to HMAC tokens only.
unfoldable pub parse_token : Host → Bytes → Option (Claim × Bool)
parse_token host token =
    if host.jwt.is_hmac token then host.jwt.verify host.secret host.now token else none

unfoldable pub check_claim : ℕ → Option (Claim × Bool) → Option Bytes
check_claim now none = none
check_claim now (some (claim, valid)) =
    if valid
    then (if ltb_ℤ claim.expires_at (pos (unix now)) then none else some claim.user)
    else some []

-- AuthMiddleware: none where it answers 401, or the user that it sets; no user at all reads like an
-- empty one.
unfoldable pub authenticate : Host → Request → Option Bytes
unfolding parse_token check_claim
authenticate host r = elim r.authorization [
  | none ↦ none
  | some token ↦ check_claim host.now (parse_token host token)
]

unfoldable pub ctx_user : Host → Bytes → Bytes
ctx_user host user = if user == [] then host.g_user else user

abbrev pub wrong_request : Bytes
wrong_request = utf8 "wrong request"
