-- ===== src/Goroutines/Workers.antt =====
-- The sixteen workers of openp2p.go and the queue of messages of msghandler.go between them and the
-- read loops and UDP servers. A handler's work is one step here; what else changes the gateway
-- (logins, ends of connections, notices, web requests) comes between two such steps.
pub mod Kept
pub mod Full
pub mod Starved
mod Tests
use gateway_lite.System.{logs_in, ends, dispatches, notifies, requests, Event, IsQuiet, after}
use gateway_lite.Handlers.Dispatch.{Env, dispatch}
use gateway_lite.Protocol.Slice.{Slice}
use gateway_lite.Gateway.{Sender, World, done}
use gateway_lite.Common.{
  Bool, none, some, [], nat_eq, bytes_eq, length, ℕ, List, replicate, ◌<◌, Option, ◌++◌, ◌∷◌, ◌≡◌,
}

-- msgContext
pub record Ctx : Type 0 where
  pub sess : Sender
  pub msg : Slice

-- The capacity of `MsgQueue`, and the number of workers.
abbrev pub queue_size : ℕ
queue_size = 1000

abbrev pub workers : ℕ
workers = 16

-- A worker is at its receive, or handles a message. `arrived` has the messages that have come to the
-- queue and `taken` those that workers have taken over, the oldest first, and `handled` those whose
-- handler has returned.
pub record Pool : Type 0 where
  pub world : World
  pub queue : List Ctx
  pub hands : List (Option Ctx)
  pub arrived : List Ctx
  pub taken : List Ctx
  pub handled : List Ctx

-- The workers when main has started them.
abbrev pub new_pool : World → Pool
new_pool w = record {
  world = w;
  queue = [];
  hands = replicate workers none;
  arrived = [];
  taken = [];
  handled = [];
}

-- The queue takes a message, a worker takes it over, and its handler returns.
pub data WorkStep (p : Pool) : Pool → Type 1 where
  arrives :
      (ctx : Ctx)
      → length p.queue < queue_size
      → WorkStep p (record p { queue = p.queue ++ ctx ∷ []; arrived = p.arrived ++ ctx ∷ [] })
  takes :
      (before after : List (Option Ctx)) (ctx : Ctx) (rest : List Ctx)
      → p.hands ≡ before ++ none ∷ after
      → p.queue ≡ ctx ∷ rest
      → WorkStep p (record p {
        hands = before ++ some ctx ∷ after;
        queue = rest;
        taken = p.taken ++ ctx ∷ [];
      })
  handles :
      (env : Env) (before after : List (Option Ctx)) (ctx : Ctx)
      → p.hands ≡ before ++ some ctx ∷ after
      → (dispatch env ctx.sess ctx.msg p.world).1 ≡ done tt
      → WorkStep p (record p {
        world = (dispatch env ctx.sess ctx.msg p.world).0;
        hands = before ++ none ∷ after;
        handled = ctx ∷ p.handled;
      })

-- What else happens to the gateway: anything but the handling of a message.
abbrev pub IsOutside : Event → Type 0
IsOutside (logs_in config disk stamp now req) = Unit {0}
IsOutside (ends ref) = Unit {0}
IsOutside (dispatches env sender msg) = ⊥
IsOutside (notifies json order) = Unit {0}
IsOutside (requests host is_options r route) = Unit {0}

pub data Step (p : Pool) : Pool → Type 1 where
  works : {q : Pool} → WorkStep p q → Step p q
  elsewhere : (e : Event) → IsOutside e → IsQuiet e → Step p (record p { world = after p.world e })

pub data Reach (p : Pool) : Pool → Type 1 where
  here : Reach p p
  next : {q r : Pool} → Reach p q → Step q r → Reach p r

-- The runs of the queue and the workers alone.
pub data Work (p : Pool) : Pool → Type 1 where
  idle : Work p p
  more : {q r : Pool} → Work p q → WorkStep q r → Work p r
