-- ===== src/Firewall/Ports.antt =====
-- The open ports and the forwarding of names (manager/firewall.go).
use Prim.Native.String.{◌++◌ as ◌<>◌}
use vpn_pack.Common.{
  String, true, false, not, ◌&&◌, none, some, ⊤, Error, text, wrap, ok, err, Action, pure, wrapping,
  ◌>>=◌, ◌>>◌, ◌==◌, string_eq, if◌then◌else◌,
}
use vpn_pack.Common.Int.{ℤ}
use vpn_pack.Common.Decimal.{itoa}
use vpn_pack.Domain.{DnsPolicyEntry}
use vpn_pack.State.Manifest.Read.{
  get_wan_port_policy_id, get_site_id, get_system_zone_ids, get_dns_policy,
}
use vpn_pack.State.Manifest.Edit.{
  set_wan_port, remove_wan_port, set_system_zone_ids, set_dns_policy, remove_dns_policy,
}
use vpn_pack.Service.ExitNode.Rules.{strip_prefix}
use vpn_pack.Firewall.{FirewallEnv}
use vpn_pack.Firewall.Order.{St, on_host}
use vpn_pack.Firewall.Probes.{integration_ready, on_manifest}

abbrev pub not_configured : Error
not_configured = text "integration API not configured"

abbrev pub dns_marker : String
dns_marker = "tailscale-dns"

abbrev pub dns_resolver : String
dns_resolver = "100.100.100.100"

-- `WanPortPolicyName` of manager/client/integration.go
unfoldable pub wan_port_policy_name : ℤ → String → String
unfolding itoa strip_prefix
wan_port_policy_name port marker = elim (strip_prefix "wg-s2s:" marker) [
  | some iface ↦ "VPN Pack: WG S2S UDP " <> (itoa port <> (" (" <> (iface <> ")")))
  | none ↦
      if marker == "relay-server"
      then "VPN Pack: Relay Server UDP " <> itoa port
      else if marker == "tailscale-wg"
      then "VPN Pack: Tailscale WireGuard UDP " <> itoa port
      else "VPN Pack: UDP " <> (itoa port <> (" (" <> (marker <> ")")))
]

module _ (F : FirewallEnv) where
  unfoldable pub resolve_system_zones : String → Action (St F) (String × String)
  resolve_system_zones site s =
      let (ext, gate) = get_system_zone_ids s.manifest in
      let asked : Action (St F) (String × String) = (do
        zones ← wrapping "find system zones" (on_host F (F.find_system_zone_ids site))
        wrapping "save manifest" (on_manifest F (set_system_zone_ids F.env zones.0 zones.1))
        pure zones) in
      if not (ext == "") && not (gate == "") then (ok (ext, gate), s) else asked s

  -- The part of `OpenWanPort` for a marker without a policy.
  unfoldable pub create_wan_port : ℤ → String → Action (St F) ⊤
  unfolding resolve_system_zones wan_port_policy_name
  create_wan_port port marker s =
      let site = get_site_id s.manifest in
      let name = wan_port_policy_name port marker in
      let whole : Action (St F) ⊤ = (do
        zones ← wrapping "resolve system zones" (resolve_system_zones site)
        policy ←
            wrapping "ensure WAN port policy"
              (on_host F (F.ensure_wan_port_policy site port name zones.0 zones.1))
        wrapping "save manifest" (on_manifest F (set_wan_port F.env marker policy name port))) in
      whole s

  unfoldable pub open_wan_port : ℤ → String → Action (St F) ⊤
  unfolding create_wan_port
  open_wan_port port marker s = elim (integration_ready F s) [
    | false ↦ (err not_configured, s)
    | true ↦
        if get_wan_port_policy_id marker s.manifest == ""
        then create_wan_port port marker s
        else (ok tt, s)
  ]

  -- A policy that is gone already is no error.
  abbrev pub unless_not_found : String → Action (St F) ⊤ → Action (St F) ⊤
  unless_not_found msg f s =
      let (r, s') = f s in
      (
        elim r [
          | ok _ ↦ ok tt
          | err e ↦ elim (F.is_not_found e) [ true ↦ ok tt | false ↦ err (wrap msg e) ]
        ],
        s',
      )

  -- The part of `CloseWanPort` for a marker with a policy.
  unfoldable pub delete_wan_port : String → Action (St F) ⊤
  delete_wan_port marker s =
      let site = get_site_id s.manifest in
      let policy = get_wan_port_policy_id marker s.manifest in
      let whole : Action (St F) ⊤ =
        unless_not_found "delete WAN port policy" (on_host F (F.delete_policy site policy))
        >> wrapping "save manifest" (on_manifest F (remove_wan_port F.env marker)) in
      whole s

  unfoldable pub close_wan_port : String → Action (St F) ⊤
  unfolding delete_wan_port
  close_wan_port marker s = elim (integration_ready F s) [
    | false ↦ (err not_configured, s)
    | true ↦
        if get_wan_port_policy_id marker s.manifest == ""
        then (ok tt, s)
        else delete_wan_port marker s
  ]

  -- An error that is only logged.
  abbrev dropped : Action (St F) ⊤ → St F → St F
  dropped f s = (f s).1

  unfoldable pub create_dns_forwarding : String → Action (St F) ⊤
  create_dns_forwarding suffix s =
      let site = get_site_id s.manifest in
      let whole : Action (St F) ⊤ = (do
        policy ←
            wrapping "create DNS forward domain"
              (on_host F (F.ensure_dns_forward_domain site suffix dns_resolver))
        wrapping "save manifest"
            (on_manifest F (set_dns_policy F.env dns_marker policy suffix dns_resolver))) in
      whole s

  -- The old policy is taken away first.
  unfoldable pub drop_old_policy : DnsPolicyEntry → St F → St F
  drop_old_policy old s =
      dropped (on_manifest F (remove_dns_policy F.env dns_marker))
        (dropped (on_host F (F.delete_dns_policy (get_site_id s.manifest) old.policy_id)) s)

  unfoldable pub ensure_dns_forwarding : String → Action (St F) ⊤
  unfolding create_dns_forwarding drop_old_policy
  ensure_dns_forwarding suffix s = elim (integration_ready F s) [
    | false ↦ (err not_configured, s)
    | true ↦ elim (get_dns_policy dns_marker s.manifest) [
      | none ↦ create_dns_forwarding suffix s
      | some old ↦
          if old.domain == suffix
          then (ok tt, s)
          else create_dns_forwarding suffix (drop_old_policy old s)
    ]
  ]

  unfoldable pub remove_dns_forwarding : Action (St F) ⊤
  remove_dns_forwarding s = elim (get_dns_policy dns_marker s.manifest) [
    | none ↦ (ok tt, s)
    | some entry ↦
        let s' : St F = elim (integration_ready F s) [
          | false ↦ s
          | true ↦
              dropped (on_host F (F.delete_dns_policy (get_site_id s.manifest) entry.policy_id)) s
        ] in
        wrapping "save manifest" (on_manifest F (remove_dns_policy F.env dns_marker)) s'
  ]
