-- ===== src/Firewall/Probes.antt =====
-- Whether the rules are there, and the setting up of the tunnels' and Tailscale's rules
-- (manager/firewall.go).
use Prim.Native.String.{◌++◌ as ◌<>◌}
use vpn_pack.Common.{
  ℕ, suc, ◌-◌, ◌*◌, String, Bool, true, false, not, ◌&&◌, Option, none, some, List, [], ◌∷◌, ltb, ⊤,
  ok, err, Action, wrapping, logged, ◌>>◌, ◌==◌, string_eq, if◌then◌else◌,
}
use vpn_pack.Common.Int.{pos}
use vpn_pack.Common.Decimal.{itoa}
use vpn_pack.Common.Map.{Map, lookup, insert}
use vpn_pack.Domain.{ZoneManifest}
use vpn_pack.Service.ExitNode.Rules.{strip_prefix}
use vpn_pack.State.Manifest.{ManifestState}
use vpn_pack.State.Manifest.Read.{get_tailscale_chain_prefix, get_tailscale_zone, has_site_id}
use vpn_pack.State.Manifest.Edit.{set_tailscale_zone}
use vpn_pack.Firewall.{FirewallEnv}
use vpn_pack.Firewall.Order.{St, on_host, has_chain_rule, has_ipset_entry, second}

-- config.TailscaleInterface and the other names of manager/config/config.go
abbrev pub tailscale_interface : String
tailscale_interface = "tailscale0"

abbrev pub tailscale_cgnat : String
tailscale_cgnat = "100.64.0.0/10"

abbrev pub firewall_marker : String
firewall_marker = "vpn-pack-manager"

abbrev pub default_chain_prefix : String
default_chain_prefix = "VPN"

abbrev chain_forward_in_user : String
chain_forward_in_user = "UBIOS_FORWARD_IN_USER"

abbrev chain_input_user_hook : String
chain_input_user_hook = "UBIOS_INPUT_USER_HOOK"

abbrev chain_output_user_hook : String
chain_output_user_hook = "UBIOS_OUTPUT_USER_HOOK"

-- The description of a check: `domain.WgS2sCheckSpec`
pub record CheckSpec : Type 0 where
  pub interface_name : String
  pub chain_prefix : String
  pub subnets : List String

unfoldable pub zone_ipset_name : String → String
zone_ipset_name prefix = prefix <> "_subnets"

abbrev pub subnets_set : String → String
subnets_set prefix = "UBIOS4" <> (prefix <> "_subnets")

-- The text in front of an end that it has.
unfoldable pub strip_suffix : String → String → Option String
strip_suffix suffix String.[] = if "" == suffix then some "" else none
strip_suffix suffix (String.◌∷◌ c s) =
    let rest = strip_suffix suffix s in
    if String.◌∷◌ c s == suffix
    then some ""
    else elim rest [ none ↦ none | some t ↦ some (String.◌∷◌ c t) ]

-- `UUID("…")` without its wrapper. The text of the wrapper alone, whose beginning and end overlap
-- and on which the source panics, is left as it is.
unfoldable pub strip_uuid_wrapper : String → String
unfolding strip_suffix
strip_uuid_wrapper s = elim (strip_prefix "UUID(\"" s) [
  | none ↦ s
  | some rest ↦ elim (strip_suffix "\")" rest) [ none ↦ s | some body ↦ body ]
]

-- The entries of the map from zones to chains: `CUSTOM1`, `CUSTOM2`, …
unfoldable pub custom_chains :
    (String → String) → ℕ → List String → Map String String → Map String String
custom_chains clean i [] cache = cache
custom_chains clean i (line ∷ lines) cache =
    custom_chains clean (suc i) lines (insert (clean line) ("CUSTOM" <> itoa (pos (suc i))) cache)

module _ (F : FirewallEnv) where
  unfoldable pub integration_ready : St F → Bool
  integration_ready s = F.has_ic && (F.has_api_key s.world && has_site_id s.manifest)

  -- A call of the manifest.
  abbrev pub on_manifest :
      {A : Type 0} → Action (ManifestState F.env.World F.env.Time) A → Action (St F) A
  on_manifest f s =
      let (r, m) = f (record { manifest = s.manifest; world = s.world }) in
      (r, record s { manifest = m.manifest; world = m.world })

  -- One test after another, as `||` and `&&` of Go make them.
  abbrev pub or_probe : (St F → Bool × St F) → (St F → Bool × St F) → St F → Bool × St F
  or_probe f g s = let (b, s') = f s in elim b [ true ↦ (true, s') | false ↦ g s' ]

  unfoldable pub check_tailscale_rules_present : St F → (Bool × Bool × Bool × Bool) × St F
  check_tailscale_rules_present s =
      let prefix = get_tailscale_chain_prefix s.manifest in
      let inward = "-i " <> tailscale_interface in
      let outward = "-o " <> tailscale_interface in
      let (forward, s1) =
        or_probe (has_chain_rule F chain_forward_in_user inward)
          (has_chain_rule F ("UBIOS_" <> (prefix <> "_IN")) inward) s in
      let (input, s2) =
        or_probe (has_chain_rule F chain_input_user_hook inward)
          (has_chain_rule F ("UBIOS_" <> (prefix <> "_LOCAL")) inward) s1 in
      let (output, s3) =
        or_probe (has_chain_rule F chain_output_user_hook outward)
          (has_chain_rule F ("UBIOS_LOCAL_" <> prefix) outward) s2 in
      let (ipset, s4) = has_ipset_entry F (subnets_set prefix) tailscale_cgnat s3 in
      ((forward, input, output, ipset), s4)

  -- The loop over the subnets, which ends at the first one that is missing.
  unfoldable pub all_entries : String → List String → St F → Bool × St F
  all_entries set [] s = (true, s)
  all_entries set (cidr ∷ cidrs) s =
      let (there, s') = has_ipset_entry F set cidr s in
      let rest = all_entries set cidrs s' in elim there [ true ↦ rest | false ↦ (false, s') ]

  unfoldable pub check_spec : CheckSpec → St F → Bool × St F
  unfolding all_entries
  check_spec spec s =
      let (forward, s1) = has_chain_rule F chain_forward_in_user ("-i " <> spec.interface_name) s in
      let (input, s2) = has_chain_rule F chain_input_user_hook ("-i " <> spec.interface_name) s1 in
      let (output, s3) =
        has_chain_rule F chain_output_user_hook ("-o " <> spec.interface_name) s2 in
      let (entries, s4) : Bool × St F = elim spec.subnets [
        | [] ↦ (true, s3)
        | c ∷ cs ↦
            if spec.chain_prefix == ""
            then (true, s3)
            else all_entries (subnets_set spec.chain_prefix) (c ∷ cs) s3
      ] in
      (forward && (input && (output && entries)), s4)

  unfoldable pub check_wg_s2s_rules_present : List CheckSpec → St F → Map String Bool × St F
  unfolding check_spec
  check_wg_s2s_rules_present [] s = ([], s)
  check_wg_s2s_rules_present (spec ∷ specs) s =
      let (there, s') = check_spec spec s in
      let (found, s'') = check_wg_s2s_rules_present specs s' in
      (
        elim (lookup spec.interface_name found) [
          | none ↦ insert spec.interface_name there found
          | some _ ↦ found
        ],
        s'',
      )

  -- A zone's place among the zones of the database gives the name of its chain.
  unfoldable pub discover_from_mongo : String → St F → String × St F
  unfolding custom_chains strip_uuid_wrapper
  discover_from_mongo zone s =
      let asked : String × St F = elim (F.mongo_zones s.world) [
        | err e ↦ ("", s)
        | ok out ↦
            let cache =
              custom_chains (λ l. strip_uuid_wrapper (F.trim_space l)) 0
                (F.lines (F.trim_space out)) [] in
            (
              elim (lookup zone cache) [ none ↦ "" | some p ↦ p ],
              record s { mongo_cache = some cache; mongo_time = F.clock s.world },
            )
      ] in
      elim s.mongo_cache [
        | none ↦ asked
        | some cache ↦ elim (lookup zone cache) [
          | none ↦ asked
          | some p ↦ if ltb (F.clock s.world - s.mongo_time) (30 * second) then (p, s) else asked
        ]
      ]

  unfoldable pub discover_chain_prefix : String → St F → String × St F
  unfolding discover_from_mongo
  discover_chain_prefix zone s =
      let (prefix, s') = discover_from_mongo zone s in
      let (there, s'') = has_chain_rule F ("UBIOS_" <> (prefix <> "_IN_USER")) "" s' in
      if zone == ""
      then ("", s)
      else if prefix == ""
      then ("", s')
      else elim there [ true ↦ (prefix, s'') | false ↦ ("", s'') ]

  unfoldable pub ensure_tailscale_rules : String → Action (St F) ⊤
  ensure_tailscale_rules prefix s =
      let inward = "-i " <> tailscale_interface in
      let (forward, s1) = has_chain_rule F chain_forward_in_user inward s in
      let (input, s2) = has_chain_rule F chain_input_user_hook inward s1 in
      let (output, s3) =
        has_chain_rule F chain_output_user_hook ("-o " <> tailscale_interface) s2 in
      let (entry, s4) = has_ipset_entry F (subnets_set prefix) tailscale_cgnat s3 in
      let install : Action (St F) ⊤ = (do
        on_host F (F.add_interface_rules tailscale_interface firewall_marker prefix)
        wrapping "zone ipset "
            (on_host F (F.ensure_zone_subnet (zone_ipset_name prefix) tailscale_cgnat))) in
      if prefix == default_chain_prefix
      then install s
      else elim (forward && (input && (output && entry))) [
        | true ↦ (ok tt, s4)
        | false ↦ install s4
      ]

  unfoldable pub restore_tailscale_rules : Action (St F) ⊤
  unfolding discover_chain_prefix ensure_tailscale_rules integration_ready
  restore_tailscale_rules s =
      let prefix = get_tailscale_chain_prefix s.manifest in
      let ts : ZoneManifest = get_tailscale_zone s.manifest in
      let (found, s') = discover_chain_prefix ts.zone_id s in
      let renamed : Action (St F) ⊤ = (do
        logged (on_host F (F.remove_interface_rules tailscale_interface firewall_marker))
        logged (on_manifest (set_tailscale_zone F.env ts.zone_id ts.zone_name ts.policy_ids found))
        ensure_tailscale_rules found) in
      elim (integration_ready s) [
        | false ↦ (ok tt, s)
        | true ↦
            if prefix == default_chain_prefix && not (ts.zone_id == "")
            then if found == "" then ensure_tailscale_rules prefix s' else renamed s'
            else ensure_tailscale_rules prefix s
      ]
