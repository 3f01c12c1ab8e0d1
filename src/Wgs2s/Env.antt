-- ===== src/Wgs2s/Env.antt =====
-- What the tunnel manager calls and does not implement: rtnetlink, wgctrl, Go's net, os, time and
-- crypto/rand. Each call acts on an unknown world. The manager's own state stands beside it.
use vpn_pack.Common.{ℕ, String, Bool, Option, List, ⊤, Result, Action}
use vpn_pack.Common.Int.{ℤ}
use vpn_pack.Atomic.{Fs}
use vpn_pack.Net.{Ip, IpNet, NetText}
use vpn_pack.Wgs2s.Config.{TunnelConfig}
use vpn_pack.Wgs2s.RouteRefs.{RouteRefs}

-- `rtnetlink.RouteMessage`, the fields that the code sets
pub record RouteMessage : Type 0 where
  pub family : ℕ
  pub dst_length : ℕ
  pub table : ℕ
  pub protocol : ℕ
  pub scope : ℕ
  pub route_type : ℕ
  pub dst : Ip
  pub out_iface : ℕ
  pub priority : ℕ

-- `rtnetlink.AddressMessage`
pub record AddressMessage : Type 0 where
  pub family : ℕ
  pub prefix_length : ℕ
  pub index : ℕ
  pub address : Ip
  pub local : Ip

-- `ifaceEntry`
pub record IfaceEntry : Type 0 where
  pub name : String
  pub idx : ℕ

-- `wgtypes.PeerConfig`, over the types of keys and of UDP addresses. The keepalive is in seconds.
pub record PeerConfig (Key UdpAddr : Type 0) : Type 0 where
  pub public_key : Key
  pub update_only : Bool
  pub replace_allowed_ips : Bool
  pub endpoint : Option UdpAddr
  pub allowed_ips : List IpNet
  pub keepalive : Option ℤ

-- `wgtypes.Config`
pub record DeviceConfig (Key UdpAddr : Type 0) : Type 0 where
  pub private_key : Option Key
  pub listen_port : Option ℤ
  pub replace_peers : Bool
  pub peers : List (PeerConfig Key UdpAddr)

pub record Env : Type 1 where
  pub World : Type 0
  pub Key : Type 0
  pub UdpAddr : Type 0
  pub net : NetText
  -- rtnetlink
  pub dial : Action World ⊤
  pub route_add : RouteMessage → Action World ⊤
  pub route_delete : RouteMessage → Action World ⊤
  pub route_replace : RouteMessage → Action World ⊤
  pub link_new : String → Action World ⊤
  pub link_delete : ℕ → Action World ⊤
  pub link_set_mtu : ℕ → ℕ → Action World ⊤
  pub link_set_up : ℕ → Action World ⊤
  pub address_new : AddressMessage → Action World ⊤
  -- net
  pub interface_by_name : String → World → Result ℕ
  pub interfaces : World → Result (List IfaceEntry)
  pub resolve_udp_addr : String → World → Result UdpAddr
  pub listen_udp4 : ℤ → Action World ⊤
  pub listen_udp6 : ℤ → Action World ⊤
  -- wgctrl
  pub configure_device : String → DeviceConfig Key UdpAddr → Action World ⊤
  pub generate_private_key : Action World Key
  pub parse_key : String → Result Key
  pub key_string : Key → String
  pub public_key : Key → Key
  -- files, texts, time and chance
  pub config_dir : String
  pub fs : Fs World
  pub read_file : String → World → Result String
  pub marshal : List TunnelConfig → Result String
  pub trim_space : String → String
  pub has_prefix : String → String → Bool
  pub now : World → ℕ
  pub rand_read4 : Action World (List ℕ)

-- `TunnelManager`, with the world that its calls act on
pub record State (World : Type 0) : Type 0 where
  pub tunnels : List TunnelConfig
  pub refs : RouteRefs
  pub world : World

module _ {World A : Type 0} where
  -- A call that touches the world only.
  abbrev pub outside : Action World A → Action (State World) A
  outside f s = let (r, w) = f s.world in (r, record s { world = w })

  -- A call that only reads.
  abbrev pub reading : (World → Result A) → Action (State World) A
  reading f s = (f s.world, s)
