-- ===== src/Wgs2s/Device.antt =====
-- manager/internal/wgs2s/wireguard.go and netlink.go, and `checkPortAvailable` of manager.go: the
-- calls on a WireGuard device, its link and its ports.
use vpn_pack.Common.{
  ℕ, ◌%◌, String, Bool, true, false, Option, none, some, List, [], ◌∷◌, ⊤, text, wrap, Result, ok,
  err, Action, pure, wrapping, ◌>>=◌, ◌>>◌, ◌==◌, string_eq, if◌then◌else◌,
}
use vpn_pack.Common.Int.{ℤ, is_positive}
use vpn_pack.Net.{IpNet}
use vpn_pack.Wgs2s.Config.{TunnelConfig, items}
use vpn_pack.Wgs2s.Env.{Env, IfaceEntry, PeerConfig}
use vpn_pack.Wgs2s.Routes.{af_inet, af_inet6}

-- `peerConfig`
pub record PeerSpec : Type 0 where
  pub public_key : String
  pub endpoint : String
  pub allowed_ips : List String
  pub persistent_keepalive : ℤ

-- The peer of a tunnel, as `bringUp` and `hotUpdate` make it.
abbrev pub peer_of : TunnelConfig → PeerSpec
peer_of cfg = record {
  public_key = cfg.peer_public_key;
  endpoint = cfg.peer_endpoint;
  allowed_ips = items cfg.allowed_ips;
  persistent_keepalive = cfg.persistent_keepalive;
}

module _ (E : Env) where
  abbrev Peer : Type 0
  Peer = PeerConfig E.Key E.UdpAddr

  unfoldable pub parse_allowed_ips : List String → Result (List IpNet)
  parse_allowed_ips [] = ok []
  parse_allowed_ips (cidr ∷ cidrs) =
      let rest = parse_allowed_ips cidrs in
      elim (E.net.parse_cidr cidr) [
        | none ↦ err (wrap "parse allowed IP" (text "invalid CIDR address"))
        | some (_, ip_net) ↦ elim rest [ ok nets ↦ ok (ip_net ∷ nets) | err e ↦ err e ]
      ]

  -- An empty endpoint is none.
  unfoldable pub resolve_endpoint : String → Action E.World (Option E.UdpAddr)
  unfolding string_eq
  resolve_endpoint endpoint w =
      let r : Result (Option E.UdpAddr) = elim (E.resolve_udp_addr endpoint w) [
        | ok a ↦ ok (some a)
        | err e ↦ err (wrap "resolve peer endpoint" e)
      ] in
      (elim (endpoint == "") [ true ↦ ok none | false ↦ r ], w)

  unfoldable pub build_peer_config : PeerSpec → Bool → Action E.World Peer
  unfolding parse_allowed_ips resolve_endpoint
  build_peer_config peer update_only = do
    key ← wrapping "parse peer public key" (λ w. (E.parse_key peer.public_key, w))
    endpoint ← resolve_endpoint peer.endpoint
    nets ← λ w. (parse_allowed_ips peer.allowed_ips, w)
    pure (record {
      public_key = key;
      update_only = update_only;
      replace_allowed_ips = true;
      endpoint = endpoint;
      allowed_ips = nets;
      keepalive =
          if is_positive peer.persistent_keepalive then some peer.persistent_keepalive else none;
    })

  unfoldable pub update_peer : String → PeerSpec → Action E.World ⊤
  unfolding string_eq
  update_peer name peer =
      let go : Action E.World ⊤ = do
        pc ← build_peer_config peer true
        wrapping "update peer" (
            E.configure_device name (record {
              private_key = none;
              listen_port = none;
              replace_peers = false;
              peers = pc ∷ [];
            }))
      in elim (peer.public_key == "") [ true ↦ pure tt | false ↦ go ]

  unfoldable pub configure_device : String → E.Key → ℤ → PeerSpec → Action E.World ⊤
  unfolding string_eq
  configure_device name key port peer =
      let one : Action E.World (List Peer) = do pc ← build_peer_config peer false; pure (pc ∷ [])
      in let none_given : Action E.World (List Peer) = pure [] in
        do
          peers ← elim (peer.public_key == "") [ true ↦ none_given | false ↦ one ]
          wrapping "configure device" (
              E.configure_device name (record {
                private_key = some key;
                listen_port = some port;
                replace_peers = true;
                peers = peers;
              }))

  unfoldable pub create_interface : String → Action E.World ℕ
  create_interface name = do
    wrapping "create interface" (E.link_new name)
    wrapping "interface created but not found" (λ w. (E.interface_by_name name w, w))

  unfoldable pub lookup_iface : String → E.World → Option ℕ
  lookup_iface name w = elim (E.interface_by_name name w) [ ok i ↦ some i | err _ ↦ none ]

  unfoldable pub add_address : ℕ → String → Action E.World ⊤
  add_address index cidr w = elim (E.net.parse_cidr cidr) [
    | none ↦ (err (wrap "parse CIDR" (text "invalid CIDR address")), w)
    | some (ip, ip_net) ↦
        E.address_new
          (record {
            family = if ip.is_v4 then af_inet else af_inet6;
            prefix_length = ip_net.ones % 256;
            index = index;
            address = ip;
            local = ip;
          })
          w
  ]

  keep_prefixed : String → List IfaceEntry → List IfaceEntry
  keep_prefixed prefix [] = []
  keep_prefixed prefix (i ∷ is) =
      let rest = keep_prefixed prefix is in if E.has_prefix i.name prefix then i ∷ rest else rest

  unfoldable pub list_interfaces_by_prefix : String → E.World → List IfaceEntry
  unfolding keep_prefixed
  list_interfaces_by_prefix prefix w = elim (E.interfaces w) [
    | ok is ↦ keep_prefixed prefix is
    | err _ ↦ []
  ]

  unfoldable pub check_port_available : ℤ → Action E.World ⊤
  check_port_available port = do
    wrapping "port in use or unavailable (udp4)" (E.listen_udp4 port)
    wrapping "port in use or unavailable (udp6)" (E.listen_udp6 port)
