-- ===== src/Goroutines/Workers/Kept.antt =====
-- What the workers and the queue of msghandler.go keep, whatever the order of the steps.
use gateway_lite.Handlers.Round.{dispatch-Keeps}
use gateway_lite.System.{after-IsSound}
use gateway_lite.Gateway.Sound.{IsSound, IsSound-IsStable}
use gateway_lite.Goroutines.Workers.{
  Pool, Step, WorkStep, Ctx, Reach, arrives, works, elsewhere, new_pool, queue_size, next, workers,
  here, takes, handles,
}
use gateway_lite.Gateway.{World}
use mathlib.Core.List.Permᴰ
use mathlib.Core.List.{Permᴰ, append_assoc}
use gateway_lite.Common.{
  refl, none, some, [], nat_eq, bytes_eq, List, Option, length, ◌++◌, ◌≤◌, arith, ◌∷◌, ◌≡◌, ap,
  length-append, ◌∙◌, sym,
}

-- The messages in the hands of the workers.
abbrev pub in_hands : List (Option Ctx) → List Ctx
in_hands [] = []
in_hands (none ∷ hs) = in_hands hs
in_hands (some ctx ∷ hs) = ctx ∷ in_hands hs

in_hands-append : (hs gs : List (Option Ctx)) → in_hands (hs ++ gs) ≡ in_hands hs ++ in_hands gs
in_hands-append [] gs = refl
in_hands-append (none ∷ hs) gs = in_hands-append hs gs
in_hands-append (some ctx ∷ hs) gs = ap (◌∷◌ ctx) (in_hands-append hs gs)

-- A worker takes a message over, or gives it up.
in_hands-Perm :
    (before after : List (Option Ctx)) (ctx : Ctx)
    → Permᴰ (in_hands (before ++ some ctx ∷ after)) (ctx ∷ in_hands (before ++ none ∷ after))
in_hands-Perm before after ctx =
    rw (in_hands-append before (some ctx ∷ after), in_hands-append before (none ∷ after))
      (Permᴰ.middle ctx (in_hands before) (in_hands after))

length-replaced :
    {A : Type 0} (before after : List A) (a b : A)
    → length (before ++ a ∷ after) ≡ length (before ++ b ∷ after)
length-replaced before after a b =
    length-append before (a ∷ after) ∙ sym (length-append before (b ∷ after))

-- The queue keeps to its places and the workers to their number, the two invariants of the gateway
-- hold, the messages that have arrived are, in their order, those that were taken and those that
-- wait, and each that was taken is with those that were handled or in the hands of a worker, once.
pub record IsKept (p : Pool) : Type 0 where
  pub sound : IsSound p.world
  pub room : length p.queue ≤ queue_size
  pub number : length p.hands ≡ workers
  pub order : p.arrived ≡ p.taken ++ p.queue
  pub once : Permᴰ p.taken (p.handled ++ in_hands p.hands)

works-IsKept : {p q : Pool} → WorkStep p q → IsKept p → IsKept q
works-IsKept {p} (arrives ctx room) k = record {
  sound = k.sound;
  room = omega (arith, room, length-append p.queue (ctx ∷ []));
  number = k.number;
  order = simp (k.order, append_assoc);
  once = k.once;
}
works-IsKept {p} (takes before after ctx rest h c) k = record {
  sound = k.sound;
  room = ground (arith, k.room, c);
  number = length-replaced before after (some ctx) none ∙ (ap length (sym h) ∙ k.number);
  order = simp (rw c at k.order, append_assoc);
  once =
      let free = in_hands (before ++ none ∷ after) in
      Permᴰ.trans (Permᴰ.append_comm p.taken (ctx ∷ [])) (
        Permᴰ.trans (Permᴰ.cons refl (rw h at k.once)) (
          Permᴰ.trans (Permᴰ.symm (Permᴰ.middle ctx p.handled free))
            (Permᴰ.append_left p.handled (Permᴰ.symm (in_hands-Perm before after ctx)))));
}
works-IsKept {p} (handles env before after ctx h d) k = record {
  sound = dispatch-Keeps IsSound IsSound-IsStable env ctx.sess ctx.msg p.world k.sound;
  room = k.room;
  number = length-replaced before after none (some ctx) ∙ (ap length (sym h) ∙ k.number);
  order = k.order;
  once = Permᴰ.trans (rw h at k.once) (
      Permᴰ.trans (Permᴰ.append_left p.handled (in_hands-Perm before after ctx))
        (Permᴰ.middle ctx p.handled (in_hands (before ++ none ∷ after))));
}

Step-IsKept : {p q : Pool} → Step p q → IsKept p → IsKept q
Step-IsKept (works w) k = works-IsKept w k
Step-IsKept {p} (elsewhere e outside quiet) k = record {
  sound = after-IsSound p.world e quiet k.sound;
  room = k.room;
  number = k.number;
  order = k.order;
  once = k.once;
}

-- From a sound gateway with its workers at their receives, whatever the workers, the queue, the
-- logins, the ends of connections, the notices and the web requests do, and in whatever order: both
-- invariants hold, the queue keeps to its places, the workers take the messages in the order in which
-- they arrived, and no message is lost or handled twice; as long as the rest of the gateway keeps the
-- invariants while a web request waits.
pub Reach-IsKept : {w : World} {p : Pool} → IsSound w → Reach (new_pool w) p → IsKept p
Reach-IsKept {w} sound here = record {
  sound = sound;
  room = omega arith;
  number = refl;
  order = refl;
  once = Permᴰ.nil;
}
Reach-IsKept sound (next r e) = Step-IsKept e (Reach-IsKept sound r)
