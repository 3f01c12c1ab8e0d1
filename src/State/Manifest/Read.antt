-- ===== src/State/Manifest/Read.antt =====
-- The operations of manager/state/manifest.go that read the manifest. A copy of a slice is the
-- slice, since nothing here changes one in place.
use vpn_pack.Common.{
  String, Bool, true, false, not, Option, none, some, List, [], ◌∷◌, ◌++◌, ◌==◌, string_eq,
  if◌then◌else◌,
}
use vpn_pack.Common.Int.{pos, incr}
use vpn_pack.Common.Map.{Map, lookup, insert}
use vpn_pack.Domain.{
  off, ExitNodePolicy, RemoteExitNode, ZoneManifest, WanPortEntry, DnsPolicyEntry, WgS2sZoneInfo,
}
use vpn_pack.State.Manifest.{Manifest}

-- The loop of `GetWgS2sZones` over the tunnels' zones; `none` is a nil pointer.
abbrev Seen : Type 0
Seen = Map String WgS2sZoneInfo

-- A zone that is seen for the first time, and one that is seen again.
abbrev pub new_info : ZoneManifest → WgS2sZoneInfo
new_info zm = record { zone_id = zm.zone_id; zone_name = zm.zone_name; tunnel_count = pos 1 }

abbrev pub bump : WgS2sZoneInfo → WgS2sZoneInfo
bump info = record info { tunnel_count = incr info.tunnel_count }

unfoldable pub zones_from : Map String ZoneManifest → Seen → List String → Seen × List String
zones_from [] seen order = (seen, order)
zones_from ((_, zm) ∷ rest) seen order =
    let skipped = zones_from rest seen order in
    let counted =
      λ (info : WgS2sZoneInfo). zones_from rest (insert zm.zone_id (bump info) seen) order in
    let added =
      zones_from rest (insert zm.zone_id (new_info zm) seen) (order ++ (zm.zone_id ∷ [])) in
    if zm.zone_id == ""
    then skipped
    else elim (lookup zm.zone_id seen) [ some info ↦ counted info | none ↦ added ]

unfoldable pub collect : Seen → List String → Option (List WgS2sZoneInfo)
collect seen [] = some []
collect seen (id ∷ ids) =
    let rest = collect seen ids in
    elim (lookup id seen) [
      | none ↦ none
      | some info ↦ elim rest [ none ↦ none | some infos ↦ some (info ∷ infos) ]
    ]

module _ {Time : Type 0} where
  unfoldable pub get_wg_s2s_zones : Manifest Time → Option (List WgS2sZoneInfo)
  unfolding zones_from collect
  get_wg_s2s_zones m = let (seen, order) = zones_from m.wg_s2s [] [] in collect seen order

  unfoldable pub get_tailscale_chain_prefix : Manifest Time → String
  get_tailscale_chain_prefix m =
      if m.tailscale.chain_prefix == "" then "VPN" else m.tailscale.chain_prefix

  unfoldable pub get_wg_s2s_chain_prefix : String → Manifest Time → String
  get_wg_s2s_chain_prefix tunnel m = elim (lookup tunnel m.wg_s2s) [
    | none ↦ "VPN"
    | some zm ↦ if zm.chain_prefix == "" then "VPN" else zm.chain_prefix
  ]

  unfoldable pub get_wan_port_policy_id : String → Manifest Time → String
  get_wan_port_policy_id marker m = elim (lookup marker m.wan_ports) [
    | none ↦ ""
    | some e ↦ e.policy_id
  ]

  unfoldable pub get_site_id : Manifest Time → String
  get_site_id m = m.site_id

  unfoldable pub has_site_id : Manifest Time → Bool
  has_site_id m = not (m.site_id == "")

  -- The entry of a key that is missing is the zero one, with `ok` false: `none` here.
  unfoldable pub get_wg_s2s_zone : String → Manifest Time → Option ZoneManifest
  get_wg_s2s_zone tunnel m = lookup tunnel m.wg_s2s

  unfoldable pub get_wan_port_entry : String → Manifest Time → Option WanPortEntry
  get_wan_port_entry marker m = lookup marker m.wan_ports

  unfoldable pub get_dns_policy : String → Manifest Time → Option DnsPolicyEntry
  get_dns_policy marker m = lookup marker m.dns_policies

  unfoldable pub has_dns_policy : String → Manifest Time → Bool
  has_dns_policy marker m = elim (lookup marker m.dns_policies) [ none ↦ false | some _ ↦ true ]

  unfoldable pub get_exit_node_policy : Manifest Time → ExitNodePolicy
  get_exit_node_policy m = elim m.exit_node_policy [
    | none ↦ record { mode = off; clients = [] }
    | some p ↦ p
  ]

  unfoldable pub get_advertise_exit_node_enabled : Manifest Time → Bool
  get_advertise_exit_node_enabled m = m.advertise_exit_node_enabled

  unfoldable pub get_remote_exit_node : Manifest Time → Option RemoteExitNode
  get_remote_exit_node m = m.remote_exit_node

  unfoldable pub get_tailscale_zone : Manifest Time → ZoneManifest
  get_tailscale_zone m = m.tailscale

  unfoldable pub get_system_zone_ids : Manifest Time → String × String
  get_system_zone_ids m = (m.external_zone_id, m.gateway_zone_id)

  unfoldable pub get_wan_ports_snapshot : Manifest Time → Map String WanPortEntry
  get_wan_ports_snapshot m = m.wan_ports

  unfoldable pub get_wg_s2s_snapshot : Manifest Time → Map String ZoneManifest
  get_wg_s2s_snapshot m = m.wg_s2s
