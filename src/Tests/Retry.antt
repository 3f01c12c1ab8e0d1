-- ===== src/Tests/Retry.antt =====
-- A second attempt where nothing can be saved.
use vpn_pack.Common.{◌≡◌, refl, String, some, [], ◌∷◌, ⊤, Error, text, wrap, ok, err, string_eq}
use vpn_pack.Common.Map.{lookup}
use vpn_pack.Atomic.{write_file}
use vpn_pack.Ops.{run, run_from, rollback, undo_all}
use vpn_pack.Wgs2s.Env.{State}
use vpn_pack.Wgs2s.RouteRefs.{key_eq}
use vpn_pack.Wgs2s.RouteRefs.Laws.{IsValid}
use vpn_pack.Wgs2s.Routes.{claim_routes, claim_from, claim_one, release_routes, build_route_message}
use vpn_pack.Wgs2s.Keys.{load_private_key, valid_tunnel_id}
use vpn_pack.Wgs2s.Device.{
  lookup_iface, create_interface, configure_device, build_peer_config, add_address,
  parse_allowed_ips, resolve_endpoint,
}
use vpn_pack.Wgs2s.Tunnel.{
  bring_up_tunnel, bring_up, tear_down, cleanup_existing_interface, delete_existing, release_all,
  claim_all, or_delete, configure_link, set_mtu_if, int_eq,
}
use vpn_pack.Wgs2s.Manager.{find_tunnel, find_config, save}
use vpn_pack.Wgs2s.Manager.Toggle.{
  enable_tunnel, disable_tunnel, enable_steps, disable_steps, take_down, change_and_save,
}
use vpn_pack.Wgs2s.Manager.Toggle.Retry.{enable_tunnel-retry, disable_tunnel-retry}
use vpn_pack.Tests.World.{read_only, office, office_on, holding}

no_routes-IsValid : IsValid []
unfolding lookup
no_routes-IsValid k = tt

found_off : find_config "0a1b2c3d" (office ∷ []) ≡ some (0, office)
unfolding find_config find_tunnel string_eq
found_off = refl

found_on : find_config "0a1b2c3d" (office_on ∷ []) ≡ some (0, office_on)
unfolding find_config find_tunnel string_eq
found_on = refl

abbrev stopped : State ⊤
stopped = holding (office ∷ [])

abbrev started : State ⊤
started = holding (office_on ∷ [])

comes_up :
    bring_up_tunnel read_only office stopped ≡ (ok tt, (bring_up_tunnel read_only office stopped).1)
unfolding bring_up_tunnel load_private_key valid_tunnel_id bring_up cleanup_existing_interface
    lookup_iface release_all release_routes delete_existing create_interface or_delete
    configure_link set_mtu_if int_eq configure_device build_peer_config parse_allowed_ips
    resolve_endpoint string_eq add_address claim_all claim_routes claim_from claim_one
    build_route_message
comes_up = refl

comes_down :
    tear_down read_only office_on started ≡ (ok tt, (tear_down read_only office_on started).1)
unfolding tear_down lookup_iface release_all release_routes
comes_down = refl

-- Why a saving fails, under the step's name.
abbrev not_saved : String → Error
not_saved step = wrap step (wrap "save config" (wrap "create tmp" (text "read-only file system")))

enabling_fails : enable_tunnel read_only "0a1b2c3d" stopped ≡ (
  err (not_saved "persist enabled=true to disk"),
  (enable_tunnel read_only "0a1b2c3d" stopped).1,
)
unfolding enable_tunnel enable_steps change_and_save save write_file run run_from rollback undo_all
    take_down find_config find_tunnel bring_up_tunnel load_private_key valid_tunnel_id bring_up
    cleanup_existing_interface lookup_iface release_all release_routes delete_existing
    create_interface or_delete configure_link set_mtu_if int_eq configure_device build_peer_config
    parse_allowed_ips resolve_endpoint string_eq add_address claim_all claim_routes claim_from
    claim_one build_route_message
enabling_fails = refl

disabling_fails : disable_tunnel read_only "0a1b2c3d" started ≡ (
  err (not_saved "persist enabled=false to disk"),
  (disable_tunnel read_only "0a1b2c3d" started).1,
)
unfolding disable_tunnel disable_steps change_and_save save write_file run run_from rollback
    undo_all tear_down find_config find_tunnel bring_up_tunnel load_private_key valid_tunnel_id
    bring_up cleanup_existing_interface lookup_iface release_all release_routes delete_existing
    create_interface or_delete configure_link set_mtu_if int_eq configure_device build_peer_config
    parse_allowed_ips resolve_endpoint string_eq add_address claim_all claim_routes claim_from
    claim_one build_route_message
disabling_fails = refl

enable_tunnel-retry_example :
    enable_tunnel read_only "0a1b2c3d" (enable_tunnel read_only "0a1b2c3d" stopped).1
    ≡ (ok tt, (enable_tunnel read_only "0a1b2c3d" stopped).1)
enable_tunnel-retry_example =
    enable_tunnel-retry read_only "0a1b2c3d" 0 office stopped
      (enable_tunnel read_only "0a1b2c3d" stopped).1 (bring_up_tunnel read_only office stopped).1
      (not_saved "persist enabled=true to disk") no_routes-IsValid found_off refl comes_up
      enabling_fails

disable_tunnel-retry_example :
    disable_tunnel read_only "0a1b2c3d" (disable_tunnel read_only "0a1b2c3d" started).1
    ≡ (ok tt, (disable_tunnel read_only "0a1b2c3d" started).1)
disable_tunnel-retry_example =
    disable_tunnel-retry read_only "0a1b2c3d" 0 office_on started
      (disable_tunnel read_only "0a1b2c3d" started).1 (tear_down read_only office_on started).1
      (not_saved "persist enabled=false to disk") no_routes-IsValid found_on refl comes_down
      disabling_fails
