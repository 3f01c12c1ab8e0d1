-- ===== src/Tests/Tunnels.antt =====
-- Tunnels that come, change and go.
use vpn_pack.Common.{◌≡◌, refl, String, true, false, some, [], ◌∷◌, delete_at, contains, string_eq}
use vpn_pack.Common.Map.{lookup}
use vpn_pack.Wgs2s.Config.{TunnelConfig}
use vpn_pack.Wgs2s.RouteRefs.Laws.{IsValid}
use vpn_pack.Wgs2s.Names.{next_interface_name, names}
use vpn_pack.Wgs2s.Names.Fresh.{next_interface_name-fresh}
use vpn_pack.Wgs2s.Tunnel.{bring_up_tunnel, tear_down}
use vpn_pack.Wgs2s.Manager.{find_tunnel, find_config}
use vpn_pack.Wgs2s.Manager.Create.{create_tunnel}
use vpn_pack.Wgs2s.Manager.Create.Outcome.{CreateEnds, create_tunnel-CreateEnds}
use vpn_pack.Wgs2s.Manager.Update.{update_tunnel}
use vpn_pack.Wgs2s.Manager.Update.Commit.{UpdateEnds, update_tunnel-UpdateEnds}
use vpn_pack.Wgs2s.Manager.Toggle.{
  switch, tear_down_if_enabled, delete_tunnel, enable_tunnel, disable_tunnel,
}
use vpn_pack.Wgs2s.Manager.Toggle.Outcome.{
  KernelFirst, enable_tunnel-KernelFirst, disable_tunnel-KernelFirst, delete_tunnel-KernelFirst,
}
use vpn_pack.Wgs2s.Requests.{create, delete, handle, Reachable}
use vpn_pack.Wgs2s.Requests.Invariant.{IsWellFormed, distinct, Reachable-WellFormed}
use vpn_pack.Tests.World.{calm, office, office_on, holding}

no_routes-IsValid : IsValid []
unfolding lookup
no_routes-IsValid k = tt

found_off : find_config "0a1b2c3d" (office ∷ []) ≡ some (0, office)
unfolding find_config find_tunnel string_eq
found_off = refl

found_on : find_config "0a1b2c3d" (office_on ∷ []) ≡ some (0, office_on)
unfolding find_config find_tunnel string_eq
found_on = refl

-- The address changes.
abbrev change : TunnelConfig
change = record office { tunnel_address = "10.0.0.2/24"; name = "" }

update_tunnel_example :
    UpdateEnds calm 0 office_on change
      (office_on ∷ [])
      (update_tunnel calm "0a1b2c3d" change (holding (office_on ∷ [])))
update_tunnel_example =
    update_tunnel-UpdateEnds calm "0a1b2c3d" 0 office_on change (holding (office_on ∷ []))
      no_routes-IsValid found_on

create_tunnel_example :
    CreateEnds calm office (office ∷ []) (create_tunnel calm office "" (holding (office ∷ [])))
create_tunnel_example =
    create_tunnel-CreateEnds calm office "" (holding (office ∷ [])) no_routes-IsValid

enable_tunnel_example :
    KernelFirst calm
      (bring_up_tunnel calm office)
      (switch 0 true)
      (holding (office ∷ []))
      (enable_tunnel calm "0a1b2c3d" (holding (office ∷ [])))
enable_tunnel_example =
    enable_tunnel-KernelFirst calm "0a1b2c3d" 0 office (holding (office ∷ [])) no_routes-IsValid
      found_off refl

disable_tunnel_example :
    KernelFirst calm
      (tear_down calm office_on)
      (switch 0 false)
      (holding (office_on ∷ []))
      (disable_tunnel calm "0a1b2c3d" (holding (office_on ∷ [])))
disable_tunnel_example =
    disable_tunnel-KernelFirst calm "0a1b2c3d" 0 office_on (holding (office_on ∷ []))
      no_routes-IsValid found_on refl

delete_tunnel_example :
    KernelFirst calm
      (tear_down_if_enabled calm office_on).do_step
      (delete_at 0)
      (holding (office_on ∷ []))
      (delete_tunnel calm "0a1b2c3d" (holding (office_on ∷ [])))
delete_tunnel_example =
    delete_tunnel-KernelFirst calm "0a1b2c3d" 0 office_on (holding (office_on ∷ []))
      no_routes-IsValid found_on

next_interface_name_example :
    (name : String) × (next_interface_name (office ∷ []) ≡ some name)
    × (contains name (names (office ∷ [])) ≡ false)
next_interface_name_example = next_interface_name-fresh (office ∷ [])

Reachable_example :
    IsWellFormed calm
      (handle calm (delete "0a1b2c3d") (handle calm (create office "") (holding (office ∷ []))))
unfolding distinct
Reachable_example =
    Reachable-WellFormed calm (holding (office ∷ []))
      (handle calm (delete "0a1b2c3d") (handle calm (create office "") (holding (office ∷ []))))
      (no_routes-IsValid, refl)
      (Reachable.step (Reachable.step Reachable.start (create office "")) (delete "0a1b2c3d"))
