-- ===== src/Web/Notices.antt =====
-- webmgmt.go: `notifyNetworkMembers` and `pushSDWanRefresh`, and the store.
use gateway_lite.Gateway.Actions.{write_buff-Writes}
use gateway_lite.Protocol.NodeId.{node_name_to_id}
use gateway_lite.Gateway.Stable.{and_then-Keeps}
use gateway_lite.Store.Data.{StoreNetworkNode}
use gateway_lite.Web.Devices.{find_session}
use gateway_lite.Web.Sdwan.{push_sdwan_refresh, refresh_all, refresh_session, refresh_message}
use gateway_lite.Common.{
  refl, none, some, [], nat_eq, bytes_eq, List, Bytes, ◌≡◌, Option, ◌∷◌, ℕ, ◌∙◌, lookup,
}
use gateway_lite.Gateway.{World}

pub push_sdwan_refresh-store :
    (node : Bytes) (w : World) → (push_sdwan_refresh node w).0.store ≡ w.store
unfolding push_sdwan_refresh find_session refresh_session
push_sdwan_refresh-store node w = refreshed (lookup (node_name_to_id node) w.all_sessions)
  where
    refreshed : (o : Option ℕ) → (refresh_session (node_name_to_id node) o w).0.store ≡ w.store
    refreshed none = refl
    refreshed (some ref) = (write_buff-Writes ref (refresh_message (node_name_to_id node)) w).store

pub refresh_all-store :
    (ms : List StoreNetworkNode) (w : World) → (refresh_all ms w).0.store ≡ w.store
unfolding refresh_all
refresh_all-store [] w = refl
refresh_all-store (m ∷ ms) w =
    and_then-Keeps (λ v. v.store ≡ w.store) _ (push_sdwan_refresh m.name w).1 _
      (push_sdwan_refresh-store m.name w) (λ u v e. refresh_all-store ms v ∙ e)
