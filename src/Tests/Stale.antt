-- ===== src/Tests/Stale.antt =====
-- A tunnel whose metric changes together with its address.
use vpn_pack.Common.{⊤, ◌≡◌, refl, true, false, some, [], ◌∷◌, string_eq}
use native.Mathlib.Decide.{ℕ_discrete}
use vpn_pack.Common.Int.{pos, ℤ-discrete}
use vpn_pack.Common.Map.{lookup}
use vpn_pack.Wgs2s.Config.{TunnelConfig, effective_metric}
use vpn_pack.Wgs2s.Env.{State}
use vpn_pack.Wgs2s.RouteRefs.{RouteKey, key_eq, route_key, normalize_cidr, add}
use vpn_pack.Wgs2s.RouteRefs.Laws.{IsValid, owned, add_key-IsValid}
use vpn_pack.Wgs2s.Routes.Ownership.{routed}
use vpn_pack.Wgs2s.Tunnel.{int_eq}
use vpn_pack.Wgs2s.Tunnel.Stale.{has_route}
use vpn_pack.Wgs2s.Manager.{find_tunnel, find_config}
use vpn_pack.Wgs2s.Manager.Update.{
  or_text, or_int, or_slice, apply_updates, needs_recreate, update_tunnel,
}
use vpn_pack.Wgs2s.Manager.Update.Stale.{update_tunnel-stale}
use vpn_pack.Tests.World.{one_net, calm, office, office_on}

abbrev old_route : RouteKey
old_route = route_key one_net "10.0.0.0/24" (pos 100)

abbrev owning : State ⊤
owning = record {
  tunnels = office_on ∷ [];
  refs = (add one_net "10.0.0.0/24" "0a1b2c3d" 7 (pos 100) []).1;
  world = tt;
}

owning-IsValid : IsValid owning.refs
unfolding add lookup
owning-IsValid = add_key-IsValid old_route "0a1b2c3d" 7 [] (λ k. tt)

abbrev moving : TunnelConfig
moving = record office { tunnel_address = "10.0.0.2/24"; route_metric = pos 200 }

found : find_config "0a1b2c3d" (office_on ∷ []) ≡ some (0, office_on)
unfolding find_config find_tunnel string_eq
found = refl

again : needs_recreate office_on (apply_updates office_on moving) ≡ true
unfolding needs_recreate apply_updates or_text or_int or_slice string_eq int_eq ℤ-discrete
    ℕ_discrete
again = refl

gone : has_route calm (apply_updates office_on moving) old_route ≡ false
unfolding routed apply_updates or_text or_int or_slice effective_metric route_key normalize_cidr
    string_eq int_eq ℤ-discrete key_eq ℕ_discrete
gone = refl

update_tunnel-stale_example :
    owned old_route "0a1b2c3d" (update_tunnel calm "0a1b2c3d" moving owning).1.refs
    ≡ owned old_route "0a1b2c3d" owning.refs
update_tunnel-stale_example =
    update_tunnel-stale calm "0a1b2c3d" 0 office_on moving owning old_route "0a1b2c3d"
      owning-IsValid found refl again gone
