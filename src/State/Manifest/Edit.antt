-- ===== src/State/Manifest/Edit.antt =====
-- The operations of manager/state/manifest.go that change the manifest.
use vpn_pack.Common.{
  String, Bool, true, false, ◌||◌, Option, none, some, List, [], ⊤, Action, wrapping, ◌>>=◌, ◌>>◌,
  string_eq,
}
use vpn_pack.Common.Int.{ℤ}
use vpn_pack.Common.Map.{insert, erase}
use vpn_pack.Atomic.{write_file}
use vpn_pack.Domain.{
  ExitNodeMode, off, unset, all, selective, unknown, ExitNodePolicy, RemoteExitNode, ZoneManifest,
}
use vpn_pack.State.Manifest.{Manifest, ManifestEnv, ManifestState, zero_zone, dir_perm, secret_perm}

-- `mode != ExitNodeOff`
abbrev pub is_on : ExitNodeMode → Bool
is_on off = false
is_on unset = true
is_on all = true
is_on selective = true
is_on (unknown _) = true

module _ (E : ManifestEnv) where
  abbrev pub St : Type 0
  St = ManifestState E.World E.Time

  -- A call of os on the world of the state.
  abbrev pub on_world : {A : Type 0} → Action E.World A → Action St A
  on_world f s = let (r, w) = f s.world in (r, record s { world = w })

  unfoldable pub save_locked : Action St ⊤
  save_locked s =
      let directory = E.fs.dir s.manifest.path in
      let write : String → Action St ⊤ = λ text. (do
        wrapping "manifest dir create" (on_world (E.mkdir_all directory dir_perm))
        wrapping "manifest save" (on_world (write_file E.fs s.manifest.path text secret_perm))) in
      (wrapping "manifest marshal" (λ t. (E.marshal t.manifest, t)) >>= write) s

  -- The common end of the setters: the change, the time of it, and the saving.
  unfoldable pub change : (Manifest E.Time → Manifest E.Time) → Action St ⊤
  unfolding save_locked
  change f s =
      let changed : Manifest E.Time = record (f s.manifest) { updated_at = E.now s.world } in
      save_locked (record s { manifest = changed })

  unfoldable pub set_tailscale_zone : String → String → List String → String → Action St ⊤
  unfolding change
  set_tailscale_zone id name policies prefix =
      let zone : ZoneManifest = record {
        zone_id = id;
        zone_name = name;
        policy_ids = policies;
        chain_prefix = prefix;
      } in
      change (λ m. record m { tailscale = zone })

  unfoldable pub set_wg_s2s_zone : String → ZoneManifest → Action St ⊤
  unfolding change
  set_wg_s2s_zone tunnel zone = change (λ m. record m { wg_s2s = insert tunnel zone m.wg_s2s })

  unfoldable pub remove_wg_s2s_tunnel : String → Action St ⊤
  unfolding change
  remove_wg_s2s_tunnel tunnel = change (λ m. record m { wg_s2s = erase tunnel m.wg_s2s })

  unfoldable pub set_wan_port : String → String → String → ℤ → Action St ⊤
  unfolding change
  set_wan_port marker id name port = change (λ m. record m {
    wan_ports =
        insert marker (record { policy_id = id; policy_name = name; port = port }) m.wan_ports;
  })

  unfoldable pub remove_wan_port : String → Action St ⊤
  unfolding change
  remove_wan_port marker = change (λ m. record m { wan_ports = erase marker m.wan_ports })

  unfoldable pub set_system_zone_ids : String → String → Action St ⊤
  unfolding change
  set_system_zone_ids external gateway =
      change (λ m. record m { external_zone_id = external; gateway_zone_id = gateway })

  unfoldable pub set_site_id : String → Action St ⊤
  unfolding change
  set_site_id site = change (λ m. record m { site_id = site })

  unfoldable pub set_dns_policy : String → String → String → String → Action St ⊤
  unfolding change
  set_dns_policy marker id dom ip = change (λ m. record m {
    dns_policies =
        insert marker (record { policy_id = id; domain = dom; ip_address = ip }) m.dns_policies;
  })

  unfoldable pub remove_dns_policy : String → Action St ⊤
  unfolding change
  remove_dns_policy marker = change (λ m. record m { dns_policies = erase marker m.dns_policies })

  unfoldable pub set_exit_node_policy : ExitNodePolicy → Action St ⊤
  unfolding change
  set_exit_node_policy policy = change (λ m. record m { exit_node_policy = some policy })

  unfoldable pub set_advertise_exit_node : Bool → Action St ⊤
  unfolding change
  set_advertise_exit_node enabled = change (λ m. record m { advertise_exit_node_enabled = enabled })

  unfoldable pub set_remote_exit_node : Option RemoteExitNode → Action St ⊤
  unfolding change
  set_remote_exit_node remote = change (λ m. record m { remote_exit_node = remote })

  unfoldable pub reset_integration : Action St ⊤
  unfolding change
  reset_integration = change (λ m. record m {
    tailscale = zero_zone;
    wg_s2s = [];
    wan_ports = [];
    dns_policies = [];
    external_zone_id = "";
    gateway_zone_id = "";
  })

  -- An error of the saving is only logged.
  unfoldable pub migrate_exit_node : Bool → St → St
  unfolding change
  migrate_exit_node advertising s =
      let enable : St = (change (λ m. record m { advertise_exit_node_enabled = true }) s).1 in
      let drop : Bool → St = λ on.
        ((change
          (λ m. record m {
            advertise_exit_node_enabled = on || m.advertise_exit_node_enabled;
            exit_node_policy = none;
          })
          s).1) in
      elim s.manifest.advertise_exit_node_enabled [
        | true ↦ s
        | false ↦ elim s.manifest.remote_exit_node [
          | some _ ↦ s
          | none ↦ elim s.manifest.exit_node_policy [
            | none ↦ elim advertising [ true ↦ enable | false ↦ s ]
            | some p ↦ drop (is_on p.mode || advertising)
          ]
        ]
      ]
