-- ===== src/Goroutines/Workers/Starved.antt =====
-- Answers that no web request waits for: `handleMessage` of reporthandler.go sends them to the channel
-- of the session, ten places, and waits there for room.
use gateway_lite.Protocol.Slice.{slice_from}
use gateway_lite.Protocol.Constants.{msg_report, report_apps}
use gateway_lite.Protocol.Header.{Header, header_size}
use gateway_lite.Goroutines.Workers.{Ctx, Pool, Work, WorkStep, arrives, more, takes, idle}
use gateway_lite.Gateway.{World, wss, read_header, done}
use gateway_lite.System.{Event, logs_in, ends, dispatches, notifies, requests, after}
use gateway_lite.Goroutines.Workers.Full.{IsFull}
use mathlib.Core.List.{append_assoc, append-nil}
use gateway_lite.Common.{
  refl, none, some, [], zero, suc, nat_eq, bytes_eq, ℕ, List, Bytes, Option, ◌≡◌, All, ◌++◌,
  replicate, ◌∷◌, subst, ap, arith, sym, All-append,
}

Work-trans : {p q r : Pool} → Work p q → Work q r → Work p r
Work-trans w idle = w
Work-trans w (more v e) = more (Work-trans w v) e

-- A message of a websocket session that carries an answer to a request for the apps.
pub record IsAnswer (ref : ℕ) (ctx : Ctx) : Type 0 where
  pub head : Header
  pub body : Bytes
  pub sender : ctx.sess ≡ wss ref
  pub header : (w : World) → read_header ctx.msg w ≡ (w, done head)
  pub main_type : head.main_type ≡ msg_report
  pub sub_type : head.sub_type ≡ report_apps
  pub has_body : slice_from header_size ctx.msg ≡ some body

-- The condition on what happens besides the handling of messages: a web request leaves the channel
-- full. There is none on logins, ends of connections and notices.
abbrev pub TakesNone : ℕ → World → Event → Type 0
TakesNone ref w (logs_in config disk stamp now req) = Unit {0}
TakesNone ref w (ends r) = Unit {0}
TakesNone ref w (dispatches env sender msg) = ⊥
TakesNone ref w (notifies json order) = Unit {0}
TakesNone ref w (requests host is_options r route) =
    IsFull ref (after w (requests host is_options r route))

-- The runs of the gateway under that condition: any steps of the queue and the workers, logins, ends of
-- connections, notices, and such web requests, in any order.
pub data Undrained (ref : ℕ) (p : Pool) : Pool → Type 1 where
  stays : Undrained ref p p
  works_on : {q r : Pool} → Undrained ref p q → WorkStep q r → Undrained ref p r
  happens :
      {q : Pool} (e : Event)
      → Undrained ref p q
      → TakesNone ref q.world e
      → Undrained ref p (record q { world = after q.world e })

module _ (ref : ℕ) (ctx : Ctx) (a : IsAnswer ref ctx) where
  -- Every worker has that message.
  abbrev AllBusy : List (Option Ctx) → Type 0
  AllBusy hands = All (λ h. h ≡ some ctx) hands

  -- What the workers do then.
  record IsStill (p q : Pool) : Type 0 where
    pub channel : IsFull ref q.world
    pub hands : q.hands ≡ p.hands
    pub handled : q.handled ≡ p.handled

  -- As many of the messages come as workers are free.
  fill :
      (n : ℕ) (before : List (Option Ctx)) (p : Pool)
      → p.hands ≡ before ++ replicate n none
      → AllBusy before
      → p.queue ≡ []
      → (q : Pool) × Work p q × (q.world ≡ p.world) × (q.handled ≡ p.handled) × AllBusy q.hands
  fill zero before p h b e = (p, idle, refl, refl, rw (h, append-nil before) b)
  fill (suc n) before p h b e =
      let one = record p { queue = ctx ∷ []; arrived = p.arrived ++ ctx ∷ [] } in
      let arrived : WorkStep p one =
        subst (λ l. WorkStep p (record p { queue = l; arrived = p.arrived ++ ctx ∷ [] }))
          (ap (λ l. l ++ ctx ∷ []) e) (arrives ctx (rw e (omega arith))) in
      let two = record one {
        hands = before ++ some ctx ∷ replicate n none;
        queue = [];
        taken = p.taken ++ ctx ∷ [];
      } in
      let taken : WorkStep one two = takes before (replicate n none) ctx [] h refl in
      let (q, w, r, d, b2) =
        fill n (before ++ some ctx ∷ []) two (sym (append_assoc before (some ctx ∷ []) _))
          (All-append _ before (some ctx ∷ []) b (refl, tt)) refl in
      (q, Work-trans (more (more idle arrived) taken) w, r, d, b2)
