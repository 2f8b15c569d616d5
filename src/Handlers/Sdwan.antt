-- ===== src/Handlers/Sdwan.antt =====
-- sdwanhandler.go: the virtual network that a node belongs to.
pub mod Members
use gateway_lite.Common.{
  Bytes, List, MapOrder, [], bytes_eq, if◌then◌else◌, nat_eq, none, some, ◌==◌, ◌∷◌,
}
use gateway_lite.Common.Int.{ℤ, pos, int_eq}
use gateway_lite.Protocol.Slice.{Slice}
use gateway_lite.Protocol.Header.{Header}
use gateway_lite.Protocol.Constants.{msg_sdwan, sdwan_info_req, sdwan_info_rsp}
use gateway_lite.Protocol.Messages.{Json, Packet, SdwanInfo, SdwanNode, sdwan_info_of}
use gateway_lite.Store.Data.{Store, StoreNetwork, StoreNetworkNode}
use gateway_lite.Store.Networks.{find_network_by_node}
use gateway_lite.Gateway.{
  World, Session, Sender, M, ◌>>=◌, ◌>>◌, pure, gets, read_header, as_wss, session, write,
}

abbrev pub no_network : SdwanInfo
no_network = record {
  id = 0;
  name = [];
  gateway = [];
  mode = [];
  central_node = [];
  force_relay = pos 0;
  punch_priority = pos 0;
  enable = pos 0;
  tunnel_num = pos 0;
  mtu = pos 0;
  nodes = [];
}

abbrev pub node_of : StoreNetworkNode → SdwanNode
node_of m = record { name = m.name; ip = m.ip; resource = m.resource; enable = m.enable }

-- The loop over the members.
enabled_nodes : List StoreNetworkNode → List SdwanNode
enabled_nodes [] = []
enabled_nodes (m ∷ ms) =
    let rest = enabled_nodes ms in if m.enable == pos 0 then rest else node_of m ∷ rest

info_of : StoreNetwork → SdwanInfo
unfolding enabled_nodes
info_of n = record {
  id = n.id;
  name = n.name;
  gateway = n.gateway;
  mode = n.mode;
  central_node = n.central_node;
  force_relay = n.force_relay;
  punch_priority = n.punch_priority;
  enable = n.enable;
  tunnel_num = n.tunnel_num;
  mtu = n.mtu;
  nodes = enabled_nodes n.members;
}

unfoldable pub build_sdwan_info : MapOrder → Store → Bytes → Bytes → SdwanInfo
unfolding info_of
build_sdwan_info order s user node = elim (find_network_by_node order s user node) [
  | none ↦ no_network
  | some n ↦ info_of n
]

module _ (json : Json) (order : MapOrder) where
  unfoldable pub handle : Sender → Slice → M (Unit {0})
  handle sender msg = do
    head ← read_header msg
    ref ← as_wss sender
    if head.sub_type == sdwan_info_req
        then (do
          sess ← session ref
          info ← gets (λ w. build_sdwan_info order w.store sess.user sess.node)
          write json ref msg_sdwan sdwan_info_rsp (sdwan_info_of info))
        else pure tt
