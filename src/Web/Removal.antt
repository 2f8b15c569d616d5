-- ===== src/Web/Removal.antt =====
-- webmgmt.go: the number that `saveNetwork` answers with, and `deleteNetwork` of that number.
mod Tests
use gateway_lite.Common.Strconv.Decimal.{parse_uint-format_uint}
use gateway_lite.Common.Strconv.{parse_uint, format_uint}
use gateway_lite.Store.Networks.{save_network, get_network, delete_network}
use gateway_lite.Store.Data.{StoreNetwork, stored-save}
use gateway_lite.Web.Sdwan.{
  new_network, web_save_network, own_network, fill, web_delete_network, delete_found, owned,
  save_checked, notify_network_members, target, refresh_all, save_filled, store_network,
}
use gateway_lite.Protocol.NodeId.{node_name_to_id, node_name_to_id-lt}
use gateway_lite.Gateway.{done, World}
use gateway_lite.Web.{ok, Host, Request, SaveNetworkReq, network_id}
use gateway_lite.Common.{
  Bool, none, some, true, false, [], nat_eq, bytes_eq, Bytes, ◌<◌, ◌^◌, arith, ◌≡◌, ◌==◌, ◌||◌,
  lookup, ℕ, refl, insert, ap, ◌∙◌, lookup-insert_self, beq_refl, delete, lookup-delete-insert,
}

module _ (host : Host) (user : Bytes) (req : SaveNetworkReq) (w : World) where
  abbrev made : StoreNetwork
  made = new_network host user req

  -- The gateway with the new network.
  abbrev saved : World
  saved = record w { store = save_network host.disk w.store (fill req made) }

  pub made-saved :
      (r : Request)
      → host.web_json.save_network_req r.body ≡ some req
      → (req.gateway == [] || req.name == []) ≡ false
      → (req.id == 0) ≡ true
      → web_save_network host user r w
        ≡ (saved, done (record { status = 200; body = network_id (format_uint made.id) }))
  unfolding web_save_network save_checked target save_filled store_network notify_network_members
      refresh_all fill new_network
  made-saved r e named new = rw (web_save_network, e, save_checked, named, target, new) refl

  made-stored : saved.store.stored.networks ≡ insert made.id (fill req made) w.store.stored.networks
  unfolding save_network fill
  made-stored = ap (λ d. d.networks) (stored-save host.disk _)

  made-lt : made.id < 2 ^ 64
  unfolding new_network
  made-lt = node_name_to_id-lt _

  made-owned :
      (q : Request) → parse_uint 64 q.id ≡ made.id → own_network user q saved ≡ some (fill req made)
  unfolding own_network owned get_network fill new_network
  made-owned q p =
      ap (λ i. owned user (get_network saved.store i)) p
      ∙ (ap (λ m. owned user (lookup made.id m)) made-stored
          ∙ (ap (owned user) (lookup-insert_self made.id (fill req made) w.store.stored.networks)
              ∙ rw (beq_refl user) refl))

  made-deleted :
      (q : Request)
      → parse_uint 64 q.id ≡ made.id
      → web_delete_network host user q saved ≡ (
        record saved { store = delete_network host.disk saved.store made.id },
        done (record { status = 200; body = ok }),
      )
  unfolding web_delete_network delete_found notify_network_members refresh_all fill new_network
  made-deleted q p = rw (made-owned q p, p) refl

  -- The other networks were not touched, and there was none of that number.
  made-gone :
      lookup made.id w.store.stored.networks ≡ none
      → (id : ℕ)
      → lookup id (delete_network host.disk saved.store made.id).stored.networks
        ≡ lookup id w.store.stored.networks
  unfolding delete_network
  made-gone fresh id =
      ap (λ d. lookup id d.networks) (stored-save host.disk _)
      ∙ (ap (λ m. lookup id (delete made.id m)) made-stored
          ∙ lookup-delete-insert made.id id _ w.store.stored.networks fresh)

-- A user saves a new network with a name and a gateway, under a number that no network has, and then
-- sends a delete request with the number that the answer shows: the network was stored as the
-- user's, the request is answered without an error, and the networks are again what they were.
pub web_delete_network-web_save_network :
    (host : Host) (user : Bytes) (r q : Request) (req : SaveNetworkReq) (w : World)
    → host.web_json.save_network_req r.body ≡ some req
    → (req.gateway == [] || req.name == []) ≡ false
    → (req.id == 0) ≡ true
    → lookup (new_network host user req).id w.store.stored.networks ≡ none
    → (web_save_network host user r w).1 ≡ done (record { status = 200; body = network_id q.id })
    → (own_network user q (web_save_network host user r w).0
        ≡ some (fill req (new_network host user req)))
      × ((web_delete_network host user q (web_save_network host user r w).0).1
          ≡ done (record { status = 200; body = ok }))
      × ((id : ℕ)
          → lookup id
              (web_delete_network host user q
                (web_save_network host user r w).0).0.store.stored.networks
            ≡ lookup id w.store.stored.networks)
web_delete_network-web_save_network host user r q req w e named new fresh answer =
    let n = new_network host user req in
    let v = saved host user req w in
    let done_ = made-saved host user req w r e named new in
    let shown : q.id ≡ format_uint n.id = ground (arith, answer, ap (λ o. o.1) done_) in
    let p : parse_uint 64 q.id ≡ n.id =
      ap (parse_uint 64) shown ∙ parse_uint-format_uint n.id (made-lt host user req w) in
    rw done_ (
      made-owned host user req w q p,
      ap (λ o. o.1) (made-deleted host user req w q p),
      λ id.
          ap (λ o. lookup id o.0.store.stored.networks) (made-deleted host user req w q p)
          ∙ made-gone host user req w fresh id,
    )
