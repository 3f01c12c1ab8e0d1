-- ===== src/Wgs2s/Manager/Create.antt =====
-- `CreateTunnel` of manager/internal/wgs2s/manager.go.
pub mod Outcome
use vpn_pack.Common.{
  ℕ, String, Bool, true, false, Option, none, some, List, [], ◌∷◌, ◌++◌, ⊤, Error, text, wrap,
  Result, ok, err, Action, pure, raise, raise_if, wrapping, ◌>>=◌, ◌>>◌, ◌==◌, string_eq,
  if◌then◌else◌,
}
use vpn_pack.Common.Int.{ℤ, pos}
use vpn_pack.Wgs2s.Config.{
  TunnelConfig, default_persistent_keepalive, default_mtu, default_route_metric,
}
use vpn_pack.Wgs2s.Env.{Env, outside}
use vpn_pack.Wgs2s.Names.{next_interface_name}
use vpn_pack.Wgs2s.Keys.{generate_id, generate_keypair, save_existing_keypair, delete_key_files}
use vpn_pack.Wgs2s.Device.{check_port_available}
use vpn_pack.Wgs2s.Tunnel.{St, int_eq, bring_up, tear_down}
use vpn_pack.Wgs2s.Manager.{save}

-- The fields that a request must give, in the order of their checks.
unfoldable pub missing_field : TunnelConfig → Option Error
unfolding string_eq int_eq
missing_field cfg =
    if cfg.name == ""
    then some (text "tunnel name is required")
    else if cfg.listen_port == pos 0
    then some (text "listen port is required")
    else if cfg.tunnel_address == ""
    then some (text "tunnel address is required")
    else none

unfoldable pub or_default : ℤ → ℤ → ℤ
unfolding int_eq
or_default default n = if n == pos 0 then default else n

-- The tunnel as it will be stored.
unfoldable pub complete : TunnelConfig → String → String → ℕ → TunnelConfig
unfolding or_default
complete cfg id interface now = record cfg {
  id = id;
  interface_name = interface;
  persistent_keepalive = or_default default_persistent_keepalive cfg.persistent_keepalive;
  mtu = or_default default_mtu cfg.mtu;
  route_metric = or_default default_route_metric cfg.route_metric;
  enabled = true;
  created_at = now;
}

module _ (E : Env) where
  -- The key files go.
  unfoldable pub drop_keys : String → St E → St E
  drop_keys id s = record s { world = delete_key_files E id s.world }

  unfoldable pub tunnel_key : String → String → Action E.World E.Key
  unfolding string_eq
  tunnel_key id private_key =
      let given = save_existing_keypair E id private_key in
      let generated = generate_keypair E id in
      elim (private_key == "") [ true ↦ generated | false ↦ given ]

  -- The tunnel comes up and is stored; if either fails, what was made goes again.
  unfoldable pub install : TunnelConfig → E.Key → Action (St E) TunnelConfig
  unfolding drop_keys
  install cfg key s =
      let (r, s') = bring_up E cfg key s in
      let (r', s'') = save E (record s' { tunnels = s'.tunnels ++ (cfg ∷ []) }) in
      let stored : Result TunnelConfig × St E = elim r' [
        | ok _ ↦ (ok cfg, s'')
        | err e ↦ (err e, drop_keys cfg.id (tear_down E cfg s'').1)
      ] in
      elim r [ ok _ ↦ stored | err e ↦ (err e, drop_keys cfg.id s') ]

  -- The request with its defaults filled in, under the first interface name that is free.
  unfoldable pub named : TunnelConfig → String → Action (St E) TunnelConfig
  named cfg id s = (
    elim (next_interface_name s.tunnels) [
      | none ↦ err (text "no interface name")
      | some name ↦ ok (complete cfg id name (E.now s.world))
    ],
    s,
  )

  unfoldable pub create_complete : TunnelConfig → String → Action (St E) TunnelConfig
  create_complete cfg private_key = do
    wrapping "port" (outside (check_port_available E cfg.listen_port))
    id ← outside (generate_id E)
    new ← named cfg id
    key ← outside (tunnel_key id private_key)
    install new key

  unfoldable pub create_tunnel : TunnelConfig → String → Action (St E) TunnelConfig
  create_tunnel cfg private_key = elim (missing_field cfg) [
    | some e ↦ raise e
    | none ↦ create_complete cfg private_key
  ]
