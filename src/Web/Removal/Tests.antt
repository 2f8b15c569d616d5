-- ===== src/Web/Removal/Tests.antt =====
-- A user of the gateway of Sample saves a network and deletes it again.
use gateway_lite.Protocol.NodeId.{node_name_to_id}
use gateway_lite.Web.Removal.{web_delete_network-web_save_network, made-saved}
use gateway_lite.Common.Strconv.{format_uint}
use gateway_lite.Web.Sample.{request, sdwan_host, save_req, world}
use gateway_lite.Web.Sdwan.{new_network, own_network, web_save_network, fill, web_delete_network}
use gateway_lite.Web.{Request, ok}
use gateway_lite.Gateway.{done}
use gateway_lite.Common.{refl, none, some, nat_eq, bytes_eq, lookup, utf8, ◌≡◌, ℕ, ap}

-- The delete request with the number of the answer.
abbrev delete_request : Request
delete_request = record request {
  id = format_uint (new_network sdwan_host (utf8 "annabella") save_req).id;
}

new_number :
    lookup (new_network sdwan_host (utf8 "annabella") save_req).id world.store.stored.networks
    ≡ none
unfolding new_network node_name_to_id format_uint
new_number = refl

web_delete_network-web_save_network_example :
    (own_network
        (utf8 "annabella")
        delete_request
        (web_save_network sdwan_host (utf8 "annabella") request world).0
      ≡ some (fill save_req (new_network sdwan_host (utf8 "annabella") save_req)))
    × ((web_delete_network sdwan_host
          (utf8 "annabella")
          delete_request
          (web_save_network sdwan_host (utf8 "annabella") request world).0).1
        ≡ done (record { status = 200; body = ok }))
    × ((id : ℕ)
        → lookup id
            (web_delete_network sdwan_host
              (utf8 "annabella")
              delete_request
              (web_save_network sdwan_host
                (utf8 "annabella")
                request
                world).0).0.store.stored.networks
          ≡ lookup id world.store.stored.networks)
web_delete_network-web_save_network_example =
    web_delete_network-web_save_network sdwan_host (utf8 "annabella") request delete_request
      save_req world refl refl refl new_number
      (ap (λ o. o.1)
        (made-saved sdwan_host (utf8 "annabella") save_req world request refl refl refl))
