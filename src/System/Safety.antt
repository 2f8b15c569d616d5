-- ===== src/System/Safety.antt =====
-- The messages of nodes that have logged in, at any time of the gateway: msghandler.go and its handlers.
mod Tests
use gateway_lite.Handlers.Safe.Dispatch.{dispatch-IsSafe}
use gateway_lite.Gateway.Sound.{IsSound}
use gateway_lite.Protocol.Slice.{Slice}
use gateway_lite.Handlers.Dispatch.{Env, dispatch}
use gateway_lite.Gateway.{panicked, wss, World, Session}
use gateway_lite.System.{Event, IsQuiet, history, history-IsSound}
use gateway_lite.Common.{some, nat_eq, bytes_eq, List, ℕ, All, lookup, ◌≡◌, ◌≤◌, length, ◌≢◌}

-- From a sound gateway, after any logins, ends of connections, messages, notices and web requests, in any
-- order: a message of at least 24 bytes from any session that has ever been opened, also one that
-- has ended or been replaced, does not make the gateway panic, whatever the message says and
-- whatever encoding/json makes of it; as long as the rest of the gateway keeps the two invariants
-- while a web request waits. The handling of a message is one step here.
pub history-dispatch-IsSafe :
    (env : Env) (w : World) (es : List Event) (ref : ℕ) (s : Session) (msg : Slice)
    → All IsQuiet es
    → IsSound w
    → lookup ref (history w es).sessions ≡ some s
    → 24 ≤ length msg.bytes
    → (dispatch env (wss ref) msg (history w es)).1 ≢ panicked
history-dispatch-IsSafe env w es ref s msg quiet sound e long =
    dispatch-IsSafe env ref msg (history w es) s long (history-IsSound w es quiet sound).live e
