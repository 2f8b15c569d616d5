-- ===== src/Gateway/Connection/History.antt =====
-- Sequences of logins, ends of sessions and writes, and what they keep of the session map.
use gateway_lite.Store.Data.{Disk}
use gateway_lite.Common.{
  Bytes, List, [], ap, arith, bytes_eq, false, lookup, nat_eq, not, some, ℕ, ◌∙◌, ◌∷◌, ◌≡◌,
}
use gateway_lite.Gateway.{World, done, session, write_buff}
use gateway_lite.Gateway.Queues.{Queued, write_buff-done}
use gateway_lite.Gateway.Connection.{LoginReq, Config, handle_login, read_error}
use gateway_lite.Gateway.Connection.Life.{
  IsLive, handle_login-IsLive, read_error-IsLive, write_buff-IsLive,
}

-- A login, the end of a session's connection, and a write to a session.
pub data Event : Type 0 where
  logs_in : Disk → Bytes → ℕ → LoginReq → Event
  ends : ℕ → Event
  writes : ℕ → Bytes → Event

unfoldable pub after : Config → World → Event → World
after env w (logs_in disk stamp now req) = (handle_login env disk stamp now req w).0
after env w (ends ref) = (read_error ref w).0
after env w (writes ref msg) = (write_buff ref msg w).0

unfoldable pub history : Config → World → List Event → World
unfolding after
history env w [] = w
history env w (e ∷ es) = history env (after env w e) es

after-IsLive : (env : Config) (w : World) (e : Event) → IsLive w → IsLive (after env w e)
unfolding after
after-IsLive env w (logs_in disk stamp now req) live =
    handle_login-IsLive env disk stamp now req w live
after-IsLive env w (ends ref) live = read_error-IsLive ref w live
after-IsLive env w (writes ref msg) live = write_buff-IsLive ref msg w live

-- Over any logins, ends of sessions and writes, in any order, every node of the session map keeps a
-- running session with its own number, and no channel is closed while its session runs.
pub history-IsLive :
    (env : Config) (w : World) (es : List Event) → IsLive w → IsLive (history env w es)
unfolding history
history-IsLive env w [] live = live
history-IsLive env w (e ∷ es) live =
    history-IsLive env (after env w e) es (after-IsLive env w e live)

-- Where the session map is live, a write to a node of the map does not panic, and the message is
-- in the channel of its session.
pub write_buff-Queued_live :
    (w : World) (id ref : ℕ) (msg : Bytes)
    → IsLive w
    → lookup id w.all_sessions ≡ some ref
    → ((write_buff ref msg w).1 ≡ done tt) × Queued msg ref (write_buff ref msg w).0
unfolding write_buff session
write_buff-Queued_live w id ref msg live h =
    let a = live.entries id ref h in
    let closed : a.0.closed ≡ false = live.channels ref a.0 a.1 ∙ ap not a.3 in
    let d : (write_buff ref msg w).1 ≡ done tt = ground (arith, a.1, a.3, closed) in
    (d, write_buff-done ref msg w (write_buff ref msg w).0 a.0 (ground (arith, d)) a.1 a.3)
