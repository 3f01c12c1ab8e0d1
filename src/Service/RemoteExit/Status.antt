-- ===== src/Service/RemoteExit/Status.antt =====
-- The reading functions of manager/service/remote_exit.go.
use vpn_pack.Common.{
  suc, zero, String, Bool, Option, none, some, List, [], ◌∷◌, ◌==◌, string_eq, if◌then◌else◌,
}
use vpn_pack.Common.Int.{pos, negsuc}
use vpn_pack.Domain.{ExitNodeMode, unset, off, all, selective, unknown, RemoteExitNode}
use vpn_pack.Service.ExitNode.{Prefix}
use vpn_pack.Service.RemoteExit.{PeerStatus, TsStatus, ExitNodePeer, RemoteExitNodeStatus}

unfoldable pub filter_exit_node_peers : List PeerStatus → List ExitNodePeer
filter_exit_node_peers [] = []
filter_exit_node_peers (p ∷ ps) =
    let rest = filter_exit_node_peers ps in
    if p.exit_node_option
    then record {
      id = p.id;
      host_name = p.host_name;
      dns_name = p.dns_name;
      online = p.online;
      os = p.os;
      active = p.exit_node;
    }
      ∷ rest
    else rest

unfoldable pub find_peer_by_id : List PeerStatus → String → Option PeerStatus
find_peer_by_id [] id = none
find_peer_by_id (p ∷ ps) id =
    let rest = find_peer_by_id ps id in if p.id == id then some p else rest

-- A prefix of no bits is an exit route.
unfoldable pub filter_non_exit_routes : List Prefix → List Prefix
filter_non_exit_routes [] = []
filter_non_exit_routes (r ∷ rs) =
    let rest = filter_non_exit_routes rs in
    elim r.bits [ pos zero ↦ rest | pos (suc _) ↦ r ∷ rest | negsuc _ ↦ r ∷ rest ]

-- The empty mode stands for all clients.
unfoldable pub or_all : ExitNodeMode → ExitNodeMode
or_all unset = all
or_all off = off
or_all all = all
or_all selective = selective
or_all (unknown s) = unknown s

unfoldable pub build_remote_exit_node_status :
    TsStatus → Option RemoteExitNode → Option RemoteExitNodeStatus
unfolding find_peer_by_id or_all
build_remote_exit_node_status st none = none
build_remote_exit_node_status st (some rem) = elim st.exit_node_status [
  | none ↦ none
  | some (exit_id, exit_online) ↦
      let (host_name, online) : String × Bool = elim (find_peer_by_id st.peers exit_id) [
        | none ↦ (exit_id, exit_online)
        | some p ↦ (p.host_name, p.online)
      ] in
      if exit_id == ""
      then none
      else some (record {
        peer_id = exit_id;
        host_name = host_name;
        online = online;
        mode = or_all rem.mode;
        clients = rem.clients;
      })
]
