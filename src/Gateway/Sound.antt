-- ===== src/Gateway/Sound.antt =====
-- The two invariants of the world, of the session map and of the store, as one stable property.
use gateway_lite.Store.Calls.Consistent.{step-IsConsistent, IsConsistent}
use gateway_lite.Gateway.Connection.Life.{put_session-IsLive, IsLive}
use gateway_lite.Gateway.{World}
use gateway_lite.Common.{refl, nat_eq, bytes_eq, ◌≡◌}
use gateway_lite.Gateway.Stable.{IsStable}

-- The session map and the sessions are live, and every record of the store stands under its own name
-- or number.
pub record IsSound (w : World) : Type 0 where
  pub live : IsLive w
  pub consistent : IsConsistent w.store.stored

-- What IsLive reads of the world.
pub IsLive-same :
    (v w : World) → v.sessions ≡ w.sessions → v.all_sessions ≡ w.all_sessions → IsLive w → IsLive v
IsLive-same v w e f live = record {
  entries = rw (e, f) live.entries;
  channels = rw e live.channels;
}

pub IsSound-IsStable : IsStable IsSound
IsSound-IsStable = record {
  put = λ ref s t w e i r c p. record {
    live = put_session-IsLive ref s t w e i r c p.live;
    consistent = p.consistent;
  };
  store = λ disk stamp c w p. record {
    live = IsLive-same _ w refl refl p.live;
    consistent = step-IsConsistent w.store disk stamp c p.consistent;
  };
  permissions =
      λ m w p. record { live = IsLive-same _ w refl refl p.live; consistent = p.consistent };
  results = λ m w p. record { live = IsLive-same _ w refl refl p.live; consistent = p.consistent };
  notified = λ l w p. record { live = IsLive-same _ w refl refl p.live; consistent = p.consistent };
  datagrams =
      λ l w p. record { live = IsLive-same _ w refl refl p.live; consistent = p.consistent };
  guarded = λ g w p. record { live = IsLive-same _ w refl refl p.live; consistent = p.consistent };
}

pub IsConsistent-IsStable : IsStable (λ w. IsConsistent w.store.stored)
IsConsistent-IsStable = record {
  put = λ ref s t w e i r c p. p;
  store = λ disk stamp c w p. step-IsConsistent w.store disk stamp c p;
  permissions = λ m w p. p;
  results = λ m w p. p;
  notified = λ l w p. p;
  datagrams = λ l w p. p;
  guarded = λ g w p. p;
}
