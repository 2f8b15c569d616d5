-- ===== src/Goroutines/Workers/Tests.antt =====
-- A gateway with one session whose channel for answers is full.
use gateway_lite.Sample.{env, login_req, no_sessions, no_sessions-IsSound}
use gateway_lite.Protocol.Header.{decode_header}
use gateway_lite.Common.Int.{pos}
use gateway_lite.Protocol.Slice.{slice_to}
use gateway_lite.Handlers.Dispatch.{dispatch, handler}
use gateway_lite.Goroutines.Workers.Kept.{IsKept, Reach-IsKept}
use gateway_lite.Goroutines.Workers.{
  Ctx, Pool, Reach, new_pool, next, here, works, arrives, takes, handles,
}
use gateway_lite.Gateway.Connection.{new_session}
use gateway_lite.Gateway.{Session, World, read_header, udp, wss, done}
use gateway_lite.Common.{
  refl, none, some, [], nat_eq, bytes_eq, arith, replicate, utf8, ◌∷◌, ◌≡◌, subst, ap,
}

abbrev session_full : Session
session_full = record (new_session 0 login_req (utf8 "ann")) { rsp_ch = replicate 10 (utf8 "[]") }

abbrev full : World
full = record no_sessions { sessions = (0, session_full) ∷ [] }

-- An answer with an empty list of apps.
abbrev answer : Ctx
answer = record {
  sess = wss 0;
  msg = record { bytes = 2 ∷ 0 ∷ 0 ∷ 0 ∷ 6 ∷ 0 ∷ 3 ∷ 0 ∷ utf8 "[]"; spare = [] };
}

-- A datagram with no registered type, which the gateway takes, hands over and drops.
abbrev strange : Ctx
strange = record {
  sess = udp (record { ip = utf8 "10.0.0.1"; port = pos 5000 });
  msg = record { bytes = 0 ∷ 0 ∷ 0 ∷ 0 ∷ 99 ∷ 0 ∷ 0 ∷ 0 ∷ []; spare = [] };
}

abbrev one_waits : Pool
one_waits = record (new_pool no_sessions) { queue = strange ∷ []; arrived = strange ∷ [] }

abbrev one_taken : Pool
one_taken = record one_waits {
  queue = [];
  taken = strange ∷ [];
  hands = some strange ∷ replicate 15 none;
}

abbrev one_handled : Pool
one_handled = record one_taken { hands = replicate 16 none; handled = strange ∷ [] }

strange-ends : dispatch env strange.sess strange.msg no_sessions ≡ (no_sessions, done tt)
unfolding dispatch handler read_header slice_to decode_header
strange-ends = refl

Reach-IsKept_example : IsKept one_handled
Reach-IsKept_example = Reach-IsKept no_sessions-IsSound run
  where
    taken : Reach (new_pool no_sessions) one_taken
    taken =
        next (next here (works (arrives strange (omega arith))))
          (works (takes [] (replicate 15 none) strange [] refl refl))

    run : Reach (new_pool no_sessions) one_handled
    run =
        subst (λ w. Reach (new_pool no_sessions) (record one_handled { world = w }))
          (ap (λ o. o.0) strange-ends)
          (next taken
            (works (handles env [] (replicate 15 none) strange refl (ap (λ o. o.1) strange-ends))))
