-- ===== src/Wgs2s/Manager.antt =====
-- `TunnelManager` of manager/internal/wgs2s/manager.go: the parts that its operations share. The
-- mutex serialises the operations, so each is one action on the state.
pub mod Create
pub mod Toggle
pub mod Update
pub mod Restore
use Prim.Native.String.{◌++◌ as ◌<>◌}
use vpn_pack.Common.{
  ℕ, suc, String, Option, none, some, List, [], ◌∷◌, ⊤, Error, text, Result, ok, err, Action,
  wrapping, ◌>>=◌, get_elem?, ◌==◌, string_eq, if◌then◌else◌,
}
use vpn_pack.Atomic.{write_file}
use vpn_pack.Wgs2s.Config.{TunnelConfig}
use vpn_pack.Wgs2s.Env.{Env, outside, reading}
use vpn_pack.Wgs2s.Keys.{secret_perm}
use vpn_pack.Wgs2s.Tunnel.{St}

abbrev pub tunnel_not_found : Error
tunnel_not_found = text "tunnel not found"

-- `findTunnel`; -1 is none.
unfoldable pub find_tunnel : String → List TunnelConfig → Option ℕ
find_tunnel id [] = none
find_tunnel id (t ∷ ts) =
    let rest = find_tunnel id ts in
    if t.id == id then some 0 else elim rest [ none ↦ none | some i ↦ some (suc i) ]

-- The tunnel of an id, with its place.
unfoldable pub find_config : String → List TunnelConfig → Option (ℕ × TunnelConfig)
find_config id ts = elim (find_tunnel id ts) [
  | none ↦ none
  | some i ↦ elim (get_elem? ts i) [ none ↦ none | some t ↦ some (i, t) ]
]

module _ (E : Env) where
  -- `GetTunnels`, the list itself
  abbrev pub get_tunnels : St E → List TunnelConfig
  get_tunnels s = s.tunnels

  abbrev pub set_tunnels : List TunnelConfig → Action (St E) ⊤
  set_tunnels ts s = (ok tt, record s { tunnels = ts })

  -- `save`, with `saveConfig` of config.go
  unfoldable pub save : Action (St E) ⊤
  save = do
    json ← wrapping "marshal config" (λ s. (E.marshal s.tunnels, s))
    wrapping "save config"
        (outside (write_file E.fs (E.config_dir <> "/tunnels.json") json (secret_perm E)))
