-- ===== src/Handlers/Dispatch.antt =====
-- msghandler.go, with the handlers that main in openp2p.go registers: one round of the loop. A
-- message of another type is dropped, and a handler's error is only logged.
use gateway_lite.Store.Data.{Disk}
use gateway_lite.Common.{
  Bool, Bytes, MapOrder, bytes_eq, nat_eq, ℕ, none, some, [], Map, lookup, insert,
}
use gateway_lite.Clock.{Totp}
use gateway_lite.Protocol.Slice.{Slice}
use gateway_lite.Protocol.Constants.{
  msg_login, msg_heartbeat, msg_nat_detect, msg_push, msg_relay, msg_report, msg_query, msg_sdwan,
}
use gateway_lite.Protocol.Messages.{Json}
use gateway_lite.Gateway.{
  Sender, Outcome, done, failed, panicked, blocked, M, ◌>>=◌, pure, read_header,
}
use gateway_lite.Handlers.Push
use gateway_lite.Handlers.Sdwan
use gateway_lite.Handlers.Query
use gateway_lite.Handlers.Nat
use gateway_lite.Handlers.Login
use gateway_lite.Handlers.Report
use gateway_lite.Handlers.Relay

-- The error goes to the log.
abbrev pub log_error : Outcome (Unit {0}) → Outcome (Unit {0})
log_error (done a) = done tt
log_error (failed e) = done tt
log_error panicked = panicked
log_error blocked = blocked

abbrev pub logged : M (Unit {0}) → M (Unit {0})
logged m w = ((m w).0, log_error (m w).1)

-- What the handlers take from outside.
pub record Env : Type 1 where
  pub json : Json
  pub totp : Totp
  pub is_loopback : Bytes → Bool
  pub order : MapOrder
  pub disk : Disk
  pub stamp : Bytes
  pub now : ℕ

-- The handlers that main registers: a value behind `handlerInterface`.
pub data HandlerKind : Type 0 where
  login_handler : HandlerKind
  push_handler : HandlerKind
  relay_handler : HandlerKind
  report_handler : HandlerKind
  query_handler : HandlerKind
  sdwan_handler : HandlerKind
  nat_handler : HandlerKind

-- A later handler of a type takes the place of an earlier one.
abbrev register_handler : ℕ → HandlerKind → Map ℕ HandlerKind → Map ℕ HandlerKind
register_handler msg_type hi handlers = insert msg_type hi handlers

-- The table as main fills it.
abbrev pub registered : Map ℕ HandlerKind
registered =
    let h1 = register_handler msg_login login_handler [] in
    let h2 = register_handler msg_heartbeat login_handler h1 in
    let h3 = register_handler msg_push push_handler h2 in
    let h4 = register_handler msg_relay relay_handler h3 in
    let h5 = register_handler msg_report report_handler h4 in
    let h6 = register_handler msg_query query_handler h5 in
    let h7 = register_handler msg_sdwan sdwan_handler h6 in
    register_handler msg_nat_detect nat_handler h7

-- handleMessage of the interface
unfoldable pub handle_message : Env → HandlerKind → Sender → Slice → M (Unit {0})
handle_message env login_handler sender msg = Login.handle env.json env.now sender msg
handle_message env push_handler sender msg = Push.handle env.json env.totp env.now sender msg
handle_message env relay_handler sender msg =
    Relay.handle env.json env.totp env.is_loopback env.order env.now sender msg
handle_message env report_handler sender msg =
    Report.handle env.json env.disk env.stamp env.now sender msg
handle_message env query_handler sender msg = Query.handle env.json env.totp env.now sender msg
handle_message env sdwan_handler sender msg = Sdwan.handle env.json env.order sender msg
handle_message env nat_handler sender msg = Nat.handle env.json sender msg

-- h.handlers[head.MainType], and its handleMessage
unfoldable pub handler : Env → ℕ → Sender → Slice → M (Unit {0})
handler env main_type sender msg = elim (lookup main_type registered) [
  | none ↦ pure tt
  | some hi ↦ handle_message env hi sender msg
]

unfoldable pub dispatch : Env → Sender → Slice → M (Unit {0})
dispatch env sender msg = logged (do head ← read_header msg; handler env head.main_type sender msg)
