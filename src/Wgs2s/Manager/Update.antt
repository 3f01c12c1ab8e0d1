-- ===== src/Wgs2s/Manager/Update.antt =====
-- `UpdateTunnel`, `applyUpdates` and `needsRecreate` of manager/internal/wgs2s/manager.go.
pub mod Commit
pub mod Stale
use vpn_pack.Common.{
  ℕ, String, Bool, true, false, not, ◌&&◌, ◌||◌, Option, none, some, List, ⊤, Error, text, wrap,
  Result, ok, err, Action, pure, raise, raise_if, wrapping, set, ◌>>=◌, ◌>>◌, ◌==◌, string_eq,
  if◌then◌else◌,
}
use vpn_pack.Common.Int.{ℤ, pos}
use vpn_pack.Wgs2s.Config.{TunnelConfig, items, effective_metric}
use vpn_pack.Wgs2s.Env.{Env, outside}
use vpn_pack.Wgs2s.Device.{check_port_available}
use vpn_pack.Wgs2s.Tunnel.{St, int_eq, recreate_tunnel, hot_update}
use vpn_pack.Wgs2s.Manager.{tunnel_not_found, find_config, save}

-- A field of an update that is empty, zero or nil leaves the base's.
unfoldable pub or_text : String → String → String
unfolding string_eq
or_text base update = if update == "" then base else update

unfoldable pub or_int : ℤ → ℤ → ℤ
unfolding int_eq
or_int base update = if update == pos 0 then base else update

unfoldable pub or_slice : Option (List String) → Option (List String) → Option (List String)
or_slice base none = base
or_slice base (some xs) = some xs

unfoldable pub apply_updates : TunnelConfig → TunnelConfig → TunnelConfig
unfolding or_text or_int or_slice
apply_updates base updates = record base {
  name = or_text base.name updates.name;
  listen_port = or_int base.listen_port updates.listen_port;
  tunnel_address = or_text base.tunnel_address updates.tunnel_address;
  peer_public_key = or_text base.peer_public_key updates.peer_public_key;
  peer_endpoint = or_text base.peer_endpoint updates.peer_endpoint;
  allowed_ips = or_slice base.allowed_ips updates.allowed_ips;
  local_subnets = or_slice base.local_subnets updates.local_subnets;
  persistent_keepalive = or_int base.persistent_keepalive updates.persistent_keepalive;
  mtu = or_int base.mtu updates.mtu;
  route_metric = or_int base.route_metric updates.route_metric;
}

unfoldable pub needs_recreate : TunnelConfig → TunnelConfig → Bool
needs_recreate old merged =
    not (old.listen_port == merged.listen_port)
    || not (old.tunnel_address == merged.tunnel_address)
    || not (old.mtu == merged.mtu)
    || not (old.peer_public_key == merged.peer_public_key)

module _ (E : Env) where
  -- An address that is given must parse.
  unfoldable pub check_address : TunnelConfig → Action (St E) ⊤
  unfolding string_eq
  check_address merged s =
      let r : Result ⊤ = elim (E.net.parse_cidr merged.tunnel_address) [
        | none ↦ err (wrap "invalid tunnel address" (text "invalid CIDR address"))
        | some _ ↦ ok tt
      ] in
      (elim (merged.tunnel_address == "") [ true ↦ ok tt | false ↦ r ], s)

  -- The preflight of an enabled tunnel: a new endpoint resolves,
  unfoldable pub preflight_endpoint : TunnelConfig → TunnelConfig → Action (St E) ⊤
  unfolding string_eq
  preflight_endpoint cfg merged s =
      let resolve : Result ⊤ = elim (E.resolve_udp_addr merged.peer_endpoint s.world) [
        | ok _ ↦ ok tt
        | err e ↦ err (wrap "preflight: cannot resolve peer endpoint" e)
      ] in
      (
        elim (not (merged.peer_endpoint == "") && not (merged.peer_endpoint == cfg.peer_endpoint)) [
          | true ↦ resolve
          | false ↦ ok tt
        ],
        s,
      )

  -- and a new port is free.
  unfoldable pub preflight_port : TunnelConfig → TunnelConfig → Action (St E) ⊤
  unfolding int_eq
  preflight_port cfg merged =
      let free : Action E.World ⊤ =
        wrapping "preflight: port" (check_port_available E merged.listen_port) in
      outside
        (elim (not (merged.listen_port == cfg.listen_port) && not (merged.listen_port == pos 0)) [
          | true ↦ free
          | false ↦ pure tt
        ])

  unfoldable pub preflight : TunnelConfig → TunnelConfig → Action (St E) ⊤
  preflight cfg merged = preflight_endpoint cfg merged >> preflight_port cfg merged

  -- The kernel's side of an update of an enabled tunnel, and the configuration that it leaves. A
  -- failed hot update falls back on a recreation.
  unfoldable pub apply_kernel : TunnelConfig → TunnelConfig → Action (St E) TunnelConfig
  apply_kernel cfg merged s =
      let recreated = recreate_tunnel E merged s in
      let (r, s') =
        hot_update E merged (items cfg.allowed_ips) (effective_metric cfg.route_metric) s in
      let fallback = recreate_tunnel E merged s' in
      let hot : Result TunnelConfig × St E = elim r [ ok _ ↦ (ok merged, s') | err _ ↦ fallback ] in
      elim (needs_recreate cfg merged) [ true ↦ recreated | false ↦ hot ]

  -- The commit: the old configuration comes back where it cannot be saved.
  unfoldable pub commit : ℕ → TunnelConfig → TunnelConfig → Action (St E) TunnelConfig
  commit idx old new s =
      let (r, s') = save E (record s { tunnels = set s.tunnels idx new }) in
      elim r [
        | ok _ ↦ (ok new, s')
        | err e ↦ (err e, record s' { tunnels = set s'.tunnels idx old })
      ]

  -- The configuration to commit. A tunnel that is disabled has no kernel side.
  unfoldable pub local_change : TunnelConfig → TunnelConfig → Action (St E) TunnelConfig
  local_change cfg merged =
      let kernel : Action (St E) TunnelConfig = preflight cfg merged >> apply_kernel cfg merged in
      elim cfg.enabled [ true ↦ kernel | false ↦ pure merged ]

  unfoldable pub update_found : ℕ → TunnelConfig → TunnelConfig → Action (St E) TunnelConfig
  update_found idx cfg updates = do
    check_address (apply_updates cfg updates)
    local ← local_change cfg (apply_updates cfg updates)
    commit idx cfg local

  unfoldable pub update_tunnel : String → TunnelConfig → Action (St E) TunnelConfig
  update_tunnel id updates s = elim (find_config id s.tunnels) [
    | none ↦ (err tunnel_not_found, s)
    | some (idx, cfg) ↦ update_found idx cfg updates s
  ]
