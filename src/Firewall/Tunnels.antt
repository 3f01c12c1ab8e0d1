-- ===== src/Firewall/Tunnels.antt =====
-- The firewall rules of a tunnel (manager/firewall.go).
use Prim.Native.String.{◌++◌ as ◌<>◌}
use vpn_pack.Common.{
  String, none, some, List, [], ◌∷◌, contains, map, ⊤, ok, err, Action, ◌==◌, string_eq,
  if◌then◌else◌,
}
use vpn_pack.Domain.{ZoneManifest}
use vpn_pack.Ops.{Op, Context, run}
use vpn_pack.State.Manifest.Read.{get_wg_s2s_chain_prefix, get_wg_s2s_zone}
use vpn_pack.State.Manifest.Edit.{set_wg_s2s_zone}
use vpn_pack.Service.SubnetValidator.{SubnetConflict, validate_allowed_ips}
use vpn_pack.Service.SubnetValidator.Collect.{collect_system_subnets}
use vpn_pack.Firewall.{FirewallEnv}
use vpn_pack.Firewall.Order.{St, on_host}
use vpn_pack.Firewall.Probes.{
  default_chain_prefix, zone_ipset_name, on_manifest, discover_chain_prefix,
}

module _ (F : FirewallEnv) where
  -- The loops of the undoing and of the removal, whose errors are dropped or logged.
  unfoldable pub remove_subnets : String → List String → St F → St F
  remove_subnets set [] s = s
  remove_subnets set (cidr ∷ cidrs) s =
      remove_subnets set cidrs (on_host F (F.remove_zone_subnet set cidr) s).1

  unfoldable pub filter_blocked : List String → List String → List String
  filter_blocked blocked [] = []
  filter_blocked blocked (cidr ∷ cidrs) =
      let rest = filter_blocked blocked cidrs in if contains cidr blocked then rest else cidr ∷ rest

  -- No prefix is blocked where the host's networks cannot be had.
  unfoldable pub filter_blocked_allowed_ips : String → List String → F.env.World → List String
  unfolding filter_blocked collect_system_subnets validate_allowed_ips
  filter_blocked_allowed_ips iface [] w = []
  filter_blocked_allowed_ips iface (c ∷ cs) w =
      let blocked : List String = elim (collect_system_subnets F.net (F.host w) (iface ∷ [])) [
        | err e ↦ []
        | ok sys ↦
            map (λ (b : SubnetConflict). b.cidr) (validate_allowed_ips F.net (c ∷ cs) sys).blocked
      ] in
      filter_blocked blocked (c ∷ cs)

  unfoldable pub rediscover_and_save : String → ZoneManifest → String → St F → String × St F
  unfolding discover_chain_prefix
  rediscover_and_save tunnel zm current s =
      let (found, s') = discover_chain_prefix F zm.zone_id s in
      let (_, s'') =
        on_manifest F (set_wg_s2s_zone F.env tunnel (record zm { chain_prefix = found })) s' in
      if found == "" then (current, s') else (found, s'')

  unfoldable pub firewall_steps : String → String → List String → List (Op (St F))
  unfolding remove_subnets zone_ipset_name
  firewall_steps iface prefix filtered =
      let marker = "wg-s2s-manager:" <> iface in
      let set = zone_ipset_name prefix in
      let rules : Op (St F) = record {
        name = "install wg-s2s chain rules";
        do_step = on_host F (F.add_interface_rules iface marker prefix);
        undo = on_host F (F.remove_interface_rules iface marker);
      } in
      let fill : Op (St F) = record {
        name = "fill wg-s2s ipset";
        do_step = on_host F (F.ensure_zone_subnets set filtered);
        undo = λ s. (ok tt, remove_subnets set filtered s);
      } in
      rules ∷ elim filtered [ [] ↦ [] | _ ∷ _ ↦ fill ∷ [] ]

  unfoldable pub setup_wg_s2s_firewall : Context → String → String → List String → Action (St F) ⊤
  unfolding rediscover_and_save firewall_steps filter_blocked_allowed_ips
  setup_wg_s2s_firewall ctx tunnel iface allowed s =
      let prefix = get_wg_s2s_chain_prefix tunnel s.manifest in
      let (chain, s') : String × St F =
        if prefix == default_chain_prefix
        then elim (get_wg_s2s_zone tunnel s.manifest) [
          | none ↦ (prefix, s)
          | some zm ↦
              if zm.zone_id == "" then (prefix, s) else rediscover_and_save tunnel zm prefix s
        ]
        else (prefix, s) in
      let filtered = filter_blocked_allowed_ips iface allowed s'.world in
      run ctx (firewall_steps iface chain filtered) s'

  unfoldable pub remove_wg_s2s_ipset_entries : String → List String → St F → St F
  unfolding remove_subnets zone_ipset_name
  remove_wg_s2s_ipset_entries tunnel cidrs s =
      let prefix = get_wg_s2s_chain_prefix tunnel s.manifest in
      if prefix == default_chain_prefix then s else remove_subnets (zone_ipset_name prefix) cidrs s

  unfoldable pub remove_wg_s2s_firewall : String → String → List String → St F → St F
  unfolding remove_wg_s2s_ipset_entries
  remove_wg_s2s_firewall tunnel iface allowed s =
      let (_, s') = on_host F (F.remove_interface_rules iface ("wg-s2s-manager:" <> iface)) s in
      remove_wg_s2s_ipset_entries tunnel allowed s'
