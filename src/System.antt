-- ===== src/System.antt =====
-- The whole gateway as one sequence of events: logins and ends of connections (wssession.go), rounds of
-- the loop over the messages (msghandler.go) and of the loop over the notices (notify.go), and requests of
-- the web interface (web.go).
pub mod Start
pub mod Safety
mod Tests
use gateway_lite.Protocol.Constants.{msg_login}
use gateway_lite.Clock.{unix}
use gateway_lite.Common.Int.{pos}
use gateway_lite.Gateway.Stable.{and_then-Keeps, write-Keeps, IsStable, Keeps}
use gateway_lite.Store.Calls.Consistent.{IsConsistent, step-IsConsistent}
use gateway_lite.Store.Calls.{step, upserts}
use gateway_lite.Web.Invariant.{serve-Keeps}
use gateway_lite.Common.Strconv.{parse_uint}
use gateway_lite.Web.{Host, Request}
use gateway_lite.Protocol.Messages.{Json, login_rsp_of}
use gateway_lite.Protocol.Slice.{Slice}
use gateway_lite.Web.Routes.{serve, Route}
use gateway_lite.Gateway.Connection.Life.{enter-IsLive, fresh_ref-none, read_error-IsLive}
use gateway_lite.Gateway.Loops.{notify_round, notify_round-Keeps}
use gateway_lite.Handlers.Round.{dispatch-Keeps}
use gateway_lite.Handlers.Dispatch.{dispatch, Env}
use gateway_lite.Store.Data.{Disk}
use gateway_lite.Gateway.Sound.{IsSound, IsSound-IsStable}
use gateway_lite.Common.{
  [], nat_eq, bytes_eq, inl, inr, List, All, Bytes, ◌∷◌, ℕ, Bool-cases, Option-cases, lookup, ltb,
  length, MapOrder, Bool, refl,
}
use gateway_lite.Gateway.Connection.{
  Config, LoginReq, handle_login, open_session, read_error, enter, min_node_name_len, owner_of,
  new_session, fresh_ref, device_at_login,
}
use gateway_lite.Gateway.{World, session, Sender, Outcome, write}

pub data Event : Type 1 where
  logs_in : Config → Disk → Bytes → ℕ → LoginReq → Event
  ends : ℕ → Event
  dispatches : Env → Sender → Slice → Event
  notifies : Json → MapOrder → Event
  requests : Host → Bool → Request → Route → Event

unfoldable pub after : World → Event → World
after w (logs_in config disk stamp now req) = (handle_login config disk stamp now req w).0
after w (ends ref) = (read_error ref w).0
after w (dispatches env sender msg) = (dispatch env sender msg w).0
after w (notifies json order) = (notify_round json order w).0
after w (requests host is_options r route) = (serve host is_options r route w).0

unfoldable pub history : World → List Event → World
unfolding after
history w [] = w
history w (e ∷ es) = history (after w e) es

-- While a web request waits, the rest of the gateway keeps a property.
abbrev pub KeepsWaiting : (World → Type 0) → Event → Type 0
KeepsWaiting P (logs_in config disk stamp now req) = Unit {0}
KeepsWaiting P (ends ref) = Unit {0}
KeepsWaiting P (dispatches env sender msg) = Unit {0}
KeepsWaiting P (notifies json order) = Unit {0}
KeepsWaiting P (requests host is_options r route) = (w : World) → P w → P (host.meanwhile w)

-- It keeps the two invariants.
abbrev pub IsQuiet : Event → Type 0
IsQuiet e = KeepsWaiting IsSound e

-- A property that the handlers keep, and that a new session and the end of a session keep.
module _ (P : World → Type 0) (stable : IsStable P)
    (enters : (disk : Disk) (stamp : Bytes) (now : ℕ) (req : LoginReq) (user : Bytes) (w : World)
      → P w
      → P (enter disk stamp (fresh_ref w.sessions) (new_session now req user) w))
    (stops : (ref : ℕ) → Keeps P (read_error ref)) where
  open_session-Keeps :
      (config : Config) (disk : Disk) (stamp : Bytes) (now : ℕ) (req : LoginReq) (user : Bytes)
      → Keeps P (open_session config disk stamp now req user)
  unfolding open_session
  open_session-Keeps config disk stamp now req user w p =
      let s = new_session now req user in
      let ref = fresh_ref w.sessions in
      let v = enter disk stamp ref s w in
      let rsp = login_rsp_of (record {
        error = pos 0;
        detail = [];
        user = user;
        node = s.node;
        token = s.token;
        ts = pos (unix now);
      }) in
      and_then-Keeps P _ (write config.json ref msg_login 0 rsp v).1 _
        (write-Keeps P stable config.json ref msg_login 0 rsp v
          (enters disk stamp now req user w p))
        (λ u x q. q)

  handle_login-Keeps :
      (config : Config) (disk : Disk) (stamp : Bytes) (now : ℕ) (req : LoginReq)
      → Keeps P (handle_login config disk stamp now req)
  unfolding handle_login
  handle_login-Keeps config disk stamp now req w p =
      elim (Bool-cases (ltb (length req.node) min_node_name_len)) [
        | inl y ↦ rw (y, handle_login) p
        | inr n ↦ elim (Option-cases (owner_of config w (parse_uint 64 req.token))) [
          | inl e ↦ rw (n, e, handle_login) p
          | inr (user, e) ↦
              rw (n, e, handle_login) (open_session-Keeps config disk stamp now req user w p)
        ]
      ]

  after-Keeps : (w : World) (e : Event) → KeepsWaiting P e → P w → P (after w e)
  unfolding after
  after-Keeps w (logs_in config disk stamp now req) q =
      handle_login-Keeps config disk stamp now req w
  after-Keeps w (ends ref) q = stops ref w
  after-Keeps w (dispatches env sender msg) q = dispatch-Keeps P stable env sender msg w
  after-Keeps w (notifies json order) q = notify_round-Keeps P stable json order w
  after-Keeps w (requests host is_options r route) q =
      serve-Keeps P stable host q is_options r route w

  pub history-Keeps :
      (w : World) (es : List Event) → All (KeepsWaiting P) es → P w → P (history w es)
  unfolding history
  history-Keeps w [] q p = p
  history-Keeps w (e ∷ es) (q, qs) p = history-Keeps (after w e) es qs (after-Keeps w e q p)

-- A login takes a reference that no session has, and stores the device of the session.
enter-IsSound :
    (disk : Disk) (stamp : Bytes) (now : ℕ) (req : LoginReq) (user : Bytes) (w : World)
    → IsSound w
    → IsSound (enter disk stamp (fresh_ref w.sessions) (new_session now req user) w)
unfolding enter new_session step
enter-IsSound disk stamp now req user w p =
    let s = new_session now req user in
    record {
      live =
          enter-IsLive disk stamp (fresh_ref w.sessions) s w (fresh_ref-none w.sessions) refl refl
            p.live;
      consistent =
          step-IsConsistent w.store disk stamp (upserts (device_at_login s stamp)) p.consistent;
    }

read_error-IsSound : (ref : ℕ) (w : World) → IsSound w → IsSound (read_error ref w).0
unfolding read_error session
read_error-IsSound ref w p = record {
  live = read_error-IsLive ref w p.live;
  consistent = elim (Option-cases (lookup ref w.sessions)) [
    | inl e ↦ rw (e, read_error) p.consistent
    | inr (s, e) ↦ rw (e, read_error) p.consistent
  ];
}

pub after-IsSound : (w : World) (e : Event) → IsQuiet e → IsSound w → IsSound (after w e)
after-IsSound = after-Keeps IsSound IsSound-IsStable enter-IsSound read_error-IsSound

-- Over any logins, ends of connections, messages, notices and web requests, in any order, every node of
-- the session map keeps a running session with its own number, no channel is closed while its session
-- runs, and every record of the store stays stored once, under its own name or number; as long as the
-- rest of the gateway keeps this while a web request waits.
pub history-IsSound :
    (w : World) (es : List Event) → All IsQuiet es → IsSound w → IsSound (history w es)
history-IsSound = history-Keeps IsSound IsSound-IsStable enter-IsSound read_error-IsSound
