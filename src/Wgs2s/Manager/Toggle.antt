-- ===== src/Wgs2s/Manager/Toggle.antt =====
-- `DeleteTunnel`, `EnableTunnel` and `DisableTunnel` of manager/internal/wgs2s/manager.go: each is
-- a saga over the kernel and the configuration.
pub mod Outcome
pub mod Retry
use vpn_pack.Common.{
  ℕ, String, Bool, true, false, Option, none, some, List, [], ◌∷◌, ⊤, Error, Result, ok, err,
  Action, pure, ◌>>=◌, ◌>>◌, get_elem?, set, delete_at, insert_at,
}
use vpn_pack.Ops.{Op, background, noop, run}
use vpn_pack.Wgs2s.Config.{TunnelConfig}
use vpn_pack.Wgs2s.Env.{Env, outside}
use vpn_pack.Wgs2s.Keys.{delete_key_files}
use vpn_pack.Wgs2s.Device.{lookup_iface}
use vpn_pack.Wgs2s.Tunnel.{St, release_all, bring_up_tunnel, tear_down}
use vpn_pack.Wgs2s.Manager.{tunnel_not_found, find_config, set_tunnels, save}

-- `m.config.Tunnels[idx].Enabled = on`
unfoldable pub switch : ℕ → Bool → List TunnelConfig → List TunnelConfig
switch idx on ts = elim (get_elem? ts idx) [
  | none ↦ ts
  | some t ↦ set ts idx (record t { enabled = on })
]

module _ (E : Env) where
  -- The tunnels of the configuration are changed, and saved.
  unfoldable pub change_and_save : (List TunnelConfig → List TunnelConfig) → Action (St E) ⊤
  change_and_save f s = save E (record s { tunnels = f s.tunnels })

  -- The steps of `DeleteTunnel`.
  abbrev pub tear_down_if_enabled : TunnelConfig → Op (St E)
  tear_down_if_enabled cfg = record {
    name = "tear down kernel interface";
    do_step = elim cfg.enabled [ true ↦ tear_down E cfg | false ↦ pure tt ];
    undo = elim cfg.enabled [ true ↦ bring_up_tunnel E cfg | false ↦ pure tt ];
  }

  abbrev pub remove_from_config : ℕ → TunnelConfig → Op (St E)
  remove_from_config idx cfg = record {
    name = "remove tunnel from disk config";
    do_step = change_and_save (delete_at idx);
    undo = λ s. (ok tt, (change_and_save (insert_at idx cfg) s).1);
  }

  abbrev pub delete_keys : TunnelConfig → Op (St E)
  delete_keys cfg =
      noop "delete key files" (λ s. (ok tt, record s { world = delete_key_files E cfg.id s.world }))

  unfoldable pub delete_steps : ℕ → TunnelConfig → List (Op (St E))
  delete_steps idx cfg =
      tear_down_if_enabled cfg ∷ remove_from_config idx cfg ∷ delete_keys cfg ∷ []

  unfoldable pub delete_tunnel : String → Action (St E) ⊤
  delete_tunnel id s = elim (find_config id s.tunnels) [
    | none ↦ (err tunnel_not_found, s)
    | some (idx, cfg) ↦ run background (delete_steps idx cfg) s
  ]

  -- `Undo` of the bring-up: the link goes, and its routes before it.
  unfoldable pub take_down : TunnelConfig → Action (St E) ⊤
  take_down cfg s = elim (lookup_iface E cfg.interface_name s.world) [
    | none ↦ (ok tt, s)
    | some idx ↦ outside (E.link_delete idx) (release_all E cfg idx s)
  ]

  abbrev pub bring_up_step : TunnelConfig → Op (St E)
  bring_up_step cfg = record {
    name = "bring up kernel interface";
    do_step = bring_up_tunnel E cfg;
    undo = take_down cfg;
  }

  unfoldable pub enable_steps : ℕ → TunnelConfig → List (Op (St E))
  enable_steps idx cfg =
      bring_up_step cfg
      ∷ noop "persist enabled=true to disk" (change_and_save (switch idx true))
      ∷ []

  unfoldable pub enable_tunnel : String → Action (St E) ⊤
  enable_tunnel id s = elim (find_config id s.tunnels) [
    | none ↦ (err tunnel_not_found, s)
    | some (idx, cfg) ↦
        let enabling = run background (enable_steps idx cfg) s in
        elim cfg.enabled [ true ↦ (ok tt, s) | false ↦ enabling ]
  ]

  abbrev pub tear_down_step : TunnelConfig → Op (St E)
  tear_down_step cfg = record {
    name = "tear down kernel interface";
    do_step = tear_down E cfg;
    undo = bring_up_tunnel E cfg;
  }

  unfoldable pub disable_steps : ℕ → TunnelConfig → List (Op (St E))
  disable_steps idx cfg =
      tear_down_step cfg
      ∷ noop "persist enabled=false to disk" (change_and_save (switch idx false))
      ∷ []

  unfoldable pub disable_tunnel : String → Action (St E) ⊤
  disable_tunnel id s = elim (find_config id s.tunnels) [
    | none ↦ (err tunnel_not_found, s)
    | some (idx, cfg) ↦
        let disabling = run background (disable_steps idx cfg) s in
        elim cfg.enabled [ true ↦ disabling | false ↦ (ok tt, s) ]
  ]
