-- ===== src/State/Manifest/Edits.antt =====
-- The manifest in memory as an abstract store, whatever becomes of the file.
use vpn_pack.Common.{
  arith, String, Result, Bool, Option, none, some, List, [], ◌∷◌, ◌≡◌, refl, ap, ◌∙◌, ⊤, Action,
  ◌==◌, string_eq, if◌then◌else◌,
}
use vpn_pack.Common.Int.{ℤ}
use vpn_pack.Common.Map.{lookup, insert, erase, lookup-insert, lookup-erase}
use vpn_pack.Domain.{ExitNodePolicy, RemoteExitNode, ZoneManifest, WanPortEntry, DnsPolicyEntry}
use vpn_pack.State.Manifest.{Manifest, ManifestEnv, zero_zone}
use vpn_pack.State.Manifest.Edit.{
  St, save_locked, change, set_tailscale_zone, set_wg_s2s_zone, remove_wg_s2s_tunnel, set_wan_port,
  remove_wan_port, set_system_zone_ids, set_site_id, set_dns_policy, remove_dns_policy,
  set_exit_node_policy, set_advertise_exit_node, set_remote_exit_node, reset_integration,
}

-- The calls that change the manifest.
pub data Edit : Type 0 where
  tailscale_zone : String → String → List String → String → Edit
  wg_s2s_zone : String → ZoneManifest → Edit
  no_wg_s2s_tunnel : String → Edit
  wan_port : String → String → String → ℤ → Edit
  no_wan_port : String → Edit
  system_zones : String → String → Edit
  site : String → Edit
  dns_policy : String → String → String → String → Edit
  no_dns_policy : String → Edit
  exit_policy : ExitNodePolicy → Edit
  advertise : Bool → Edit
  remote_node : Option RemoteExitNode → Edit
  no_integration : Edit

-- What can be asked of a manifest: the keyed parts are partial functions.
pub record Store : Type 0 where
  pub zone : ZoneManifest
  pub tunnels : String → Option ZoneManifest
  pub ports : String → Option WanPortEntry
  pub policies : String → Option DnsPolicyEntry
  pub external : String
  pub gateway : String
  pub site : String
  pub exit_policy : Option ExitNodePolicy
  pub advertising : Bool
  pub remote : Option RemoteExitNode

abbrev pub view : {Time : Type 0} → Manifest Time → Store
view m = record {
  zone = m.tailscale;
  tunnels = λ k. lookup k m.wg_s2s;
  ports = λ k. lookup k m.wan_ports;
  policies = λ k. lookup k m.dns_policies;
  external = m.external_zone_id;
  gateway = m.gateway_zone_id;
  site = m.site_id;
  exit_policy = m.exit_node_policy;
  advertising = m.advertise_exit_node_enabled;
  remote = m.remote_exit_node;
}

-- A partial function with another value at one key.
abbrev pub at_key : {A : Type 0} → String → Option A → (String → Option A) → String → Option A
at_key k v f j = if j == k then v else f j

abbrev pub specified : Edit → Store → Store
specified (tailscale_zone id name policies prefix) t = record t {
  zone = record { zone_id = id; zone_name = name; policy_ids = policies; chain_prefix = prefix };
}
specified (wg_s2s_zone k zm) t = record t { tunnels = at_key k (some zm) t.tunnels }
specified (no_wg_s2s_tunnel k) t = record t { tunnels = at_key k none t.tunnels }
specified (wan_port k id name port) t = record t {
  ports = at_key k (some (record { policy_id = id; policy_name = name; port = port })) t.ports;
}
specified (no_wan_port k) t = record t { ports = at_key k none t.ports }
specified (system_zones ext gate) t = record t { external = ext; gateway = gate }
specified (site id) t = record t { site = id }
specified (dns_policy k id dom ip) t = record t {
  policies = at_key k (some (record { policy_id = id; domain = dom; ip_address = ip })) t.policies;
}
specified (no_dns_policy k) t = record t { policies = at_key k none t.policies }
specified (exit_policy p) t = record t { exit_policy = some p }
specified (advertise b) t = record t { advertising = b }
specified (remote_node r) t = record t { remote = r }
specified no_integration t = record t {
  zone = zero_zone;
  tunnels = λ k. none;
  ports = λ k. none;
  policies = λ k. none;
  external = "";
  gateway = "";
}

abbrev pub all_specified : List Edit → Store → Store
all_specified [] t = t
all_specified (e ∷ es) t = all_specified es (specified e t)

module _ (E : ManifestEnv) where
  unfoldable pub run_edit : Edit → Action (St E) ⊤
  run_edit (tailscale_zone id name policies prefix) = set_tailscale_zone E id name policies prefix
  run_edit (wg_s2s_zone k zm) = set_wg_s2s_zone E k zm
  run_edit (no_wg_s2s_tunnel k) = remove_wg_s2s_tunnel E k
  run_edit (wan_port k id name port) = set_wan_port E k id name port
  run_edit (no_wan_port k) = remove_wan_port E k
  run_edit (system_zones ext gate) = set_system_zone_ids E ext gate
  run_edit (site id) = set_site_id E id
  run_edit (dns_policy k id dom ip) = set_dns_policy E k id dom ip
  run_edit (no_dns_policy k) = remove_dns_policy E k
  run_edit (exit_policy p) = set_exit_node_policy E p
  run_edit (advertise b) = set_advertise_exit_node E b
  run_edit (remote_node r) = set_remote_exit_node E r
  run_edit no_integration = reset_integration E

  -- A sequence of calls goes on after one that fails.
  unfoldable pub run_edits : List Edit → St E → St E
  unfolding run_edit
  run_edits [] s = s
  run_edits (e ∷ es) s = run_edits es (run_edit e s).1

  -- Saving leaves the manifest in memory as it is.
  pub save_locked_keeps : (s : St E) → (save_locked E s).1.manifest ≡ s.manifest
  unfolding save_locked
  save_locked_keeps s = grind arith

  pub view-change :
      (f : Manifest E.Time → Manifest E.Time) (s : St E)
      → view (change E f s).1.manifest ≡ view (f s.manifest)
  unfolding change
  view-change f s = ap view (
      save_locked_keeps
        (record s { manifest = record (f s.manifest) { updated_at = E.now s.world } }))

  -- What each call does to the manifest in memory, but for the time.
  abbrev pub effect : Edit → Manifest E.Time → Manifest E.Time
  effect (tailscale_zone id name policies prefix) m = record m {
    tailscale = record {
      zone_id = id;
      zone_name = name;
      policy_ids = policies;
      chain_prefix = prefix;
    };
  }
  effect (wg_s2s_zone k zm) m = record m { wg_s2s = insert k zm m.wg_s2s }
  effect (no_wg_s2s_tunnel k) m = record m { wg_s2s = erase k m.wg_s2s }
  effect (wan_port k id name port) m = record m {
    wan_ports = insert k (record { policy_id = id; policy_name = name; port = port }) m.wan_ports;
  }
  effect (no_wan_port k) m = record m { wan_ports = erase k m.wan_ports }
  effect (system_zones ext gate) m = record m { external_zone_id = ext; gateway_zone_id = gate }
  effect (site id) m = record m { site_id = id }
  effect (dns_policy k id dom ip) m = record m {
    dns_policies =
        insert k (record { policy_id = id; domain = dom; ip_address = ip }) m.dns_policies;
  }
  effect (no_dns_policy k) m = record m { dns_policies = erase k m.dns_policies }
  effect (exit_policy p) m = record m { exit_node_policy = some p }
  effect (advertise b) m = record m { advertise_exit_node_enabled = b }
  effect (remote_node r) m = record m { remote_exit_node = r }
  effect no_integration m = record m {
    tailscale = zero_zone;
    wg_s2s = [];
    wan_ports = [];
    dns_policies = [];
    external_zone_id = "";
    gateway_zone_id = "";
  }

  pub run_edit-change : (e : Edit) (s : St E) → run_edit e s ≡ change E (effect e) s
  unfolding run_edit set_tailscale_zone set_wg_s2s_zone remove_wg_s2s_tunnel set_wan_port
      remove_wan_port set_system_zone_ids set_site_id set_dns_policy remove_dns_policy
      set_exit_node_policy set_advertise_exit_node set_remote_exit_node reset_integration
  run_edit-change (tailscale_zone id name policies prefix) s = refl
  run_edit-change (wg_s2s_zone k zm) s = refl
  run_edit-change (no_wg_s2s_tunnel k) s = refl
  run_edit-change (wan_port k id name port) s = refl
  run_edit-change (no_wan_port k) s = refl
  run_edit-change (system_zones ext gate) s = refl
  run_edit-change (site id) s = refl
  run_edit-change (dns_policy k id dom ip) s = refl
  run_edit-change (no_dns_policy k) s = refl
  run_edit-change (exit_policy p) s = refl
  run_edit-change (advertise b) s = refl
  run_edit-change (remote_node r) s = refl
  run_edit-change no_integration s = refl

  view-effect : (e : Edit) (m : Manifest E.Time) → view (effect e m) ≡ specified e (view m)
  unfolding lookup
  view-effect (tailscale_zone id name policies prefix) m = refl
  view-effect (wg_s2s_zone k zm) m =
      λ i. record (view m) { tunnels = λ j. lookup-insert j k zm m.wg_s2s i }
  view-effect (no_wg_s2s_tunnel k) m =
      λ i. record (view m) { tunnels = λ j. lookup-erase j k m.wg_s2s i }
  view-effect (wan_port k id name port) m =
      let entry : WanPortEntry = record { policy_id = id; policy_name = name; port = port } in
      λ i. record (view m) { ports = λ j. lookup-insert j k entry m.wan_ports i }
  view-effect (no_wan_port k) m =
      λ i. record (view m) { ports = λ j. lookup-erase j k m.wan_ports i }
  view-effect (system_zones ext gate) m = refl
  view-effect (site id) m = refl
  view-effect (dns_policy k id dom ip) m =
      let entry : DnsPolicyEntry = record { policy_id = id; domain = dom; ip_address = ip } in
      λ i. record (view m) { policies = λ j. lookup-insert j k entry m.dns_policies i }
  view-effect (no_dns_policy k) m =
      λ i. record (view m) { policies = λ j. lookup-erase j k m.dns_policies i }
  view-effect (exit_policy p) m = refl
  view-effect (advertise b) m = refl
  view-effect (remote_node r) m = refl
  view-effect no_integration m = refl

  pub view-run_edit :
      (e : Edit) (s : St E) → view (run_edit e s).1.manifest ≡ specified e (view s.manifest)
  view-run_edit e s =
      ap (λ (p : Result ⊤ × St E). view p.1.manifest) (run_edit-change e s)
      ∙ view-change (effect e) s
      ∙ view-effect e s.manifest

  -- After any sequence of calls, of which any may fail to save, what can be asked of the manifest
  -- in memory is what the same changes make of the abstract store.
  pub view-run_edits :
      (es : List Edit) (s : St E)
      → view (run_edits es s).manifest ≡ all_specified es (view s.manifest)
  unfolding run_edits
  view-run_edits [] s = refl
  view-run_edits (e ∷ es) s =
      view-run_edits es (run_edit e s).1 ∙ ap (all_specified es) (view-run_edit e s)
