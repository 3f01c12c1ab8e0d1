-- ===== src/Wgs2s/Tunnel.antt =====
-- The kernel side of one tunnel: `bringUp`, `bringUpTunnel`, `cleanupExistingInterface`,
-- `tearDown`, `recreateTunnel` and `hotUpdate` of manager/internal/wgs2s/manager.go. The test seams
-- (`bringUpForTest`, `saveOverride`) are nil, as in production.
pub mod Frame
pub mod Refs
pub mod Stale
use vpn_pack.Common.{
  ℕ, String, Bool, true, false, not, ◌&&◌, ◌||◌, Option, none, some, List, [], ◌∷◌, ⊤, Error, text,
  wrap, Result, ok, err, Action, pure, raise, wrapping, ◌>>=◌, ◌>>◌, ◌==◌, Eq, string_eq,
  if◌then◌else◌,
}
use vpn_pack.Common.Int.{ℤ, pos, to_uint32, ℤ-discrete}
use vpn_pack.Wgs2s.Config.{TunnelConfig, items, effective_metric}
use vpn_pack.Wgs2s.Env.{Env, State, outside}
use vpn_pack.Wgs2s.Routes.{claim_routes, release_routes}
use vpn_pack.Wgs2s.Keys.{load_private_key}
use vpn_pack.Wgs2s.Device.{
  peer_of, update_peer, configure_device, create_interface, lookup_iface, add_address,
}

instance unfoldable pub int_eq : Eq ℤ
unfolding ℤ-discrete
int_eq = record { dec = ℤ-discrete }

-- `slices.Equal`
unfoldable pub strings_equal : List String → List String → Bool
strings_equal [] [] = true
strings_equal [] (_ ∷ _) = false
strings_equal (_ ∷ _) [] = false
strings_equal (x ∷ xs) (y ∷ ys) = x == y && strings_equal xs ys

module _ (E : Env) where
  abbrev pub St : Type 0
  St = State E.World

  -- The routes of a configuration, at its own prefixes and metric.
  unfoldable pub release_all : TunnelConfig → ℕ → St → St
  release_all cfg idx s =
      release_routes E cfg.id idx (items cfg.allowed_ips) (effective_metric cfg.route_metric) s

  unfoldable pub claim_all : TunnelConfig → ℕ → Action St ⊤
  claim_all cfg idx =
      claim_routes E cfg.id idx (items cfg.allowed_ips) (effective_metric cfg.route_metric)

  -- `reconnectRtnetlink`: the new connection is part of the world.
  reconnect_rtnetlink : Action E.World ⊤
  reconnect_rtnetlink = wrapping "dial rtnetlink" E.dial

  delete_again : String → Action E.World ⊤
  delete_again name w = elim (lookup_iface E name w) [
    | none ↦ (ok tt, w)
    | some idx ↦ wrapping "delete interface after reconnect" (E.link_delete idx) w
  ]

  -- The link is deleted, over a new connection if need be.
  unfoldable pub delete_existing : String → ℕ → Action E.World ⊤
  unfolding reconnect_rtnetlink delete_again
  delete_existing name idx w =
      let (r, w') = E.link_delete idx w in
      let again = (wrapping "reconnect rtnetlink" reconnect_rtnetlink >> delete_again name) w' in
      elim r [ ok _ ↦ (ok tt, w') | err _ ↦ again ]

  unfoldable pub cleanup_existing_interface : TunnelConfig → Action St ⊤
  cleanup_existing_interface cfg s = elim (lookup_iface E cfg.interface_name s.world) [
    | none ↦ (ok tt, s)
    | some idx ↦ outside (delete_existing cfg.interface_name idx) (release_all cfg idx s)
  ]

  -- A step of `bringUp` after the link was made: on an error the link is deleted again.
  unfoldable pub or_delete : {A : Type 0} → ℕ → Action St A → Action St A
  or_delete idx f s =
      let (r, s') = f s in
      elim r [
        | ok a ↦ (ok a, s')
        | err e ↦ (err e, record s' { world = (E.link_delete idx s'.world).1 })
      ]

  unfoldable pub set_mtu_if : ℕ → ℤ → Action E.World ⊤
  unfolding int_eq
  set_mtu_if idx mtu =
      let set = wrapping "set MTU" (E.link_set_mtu idx (to_uint32 mtu)) in
      elim (mtu == pos 0) [ true ↦ pure tt | false ↦ set ]

  -- What `bringUp` does on the link that it made, before the routes.
  unfoldable pub configure_link : TunnelConfig → E.Key → ℕ → Action E.World ⊤
  unfolding set_mtu_if
  configure_link cfg key idx = do
    set_mtu_if idx cfg.mtu
    configure_device E cfg.interface_name key cfg.listen_port (peer_of cfg)
    wrapping "add address" (add_address E idx cfg.tunnel_address)
    wrapping "set interface up" (E.link_set_up idx)

  unfoldable pub bring_up : TunnelConfig → E.Key → Action St ⊤
  bring_up cfg key = do
    cleanup_existing_interface cfg
    idx ← outside (create_interface E cfg.interface_name)
    or_delete idx (outside (configure_link cfg key idx) >> claim_all cfg idx)

  unfoldable pub bring_up_tunnel : TunnelConfig → Action St ⊤
  bring_up_tunnel cfg = do
    key ← wrapping "load key" (outside (load_private_key E cfg.id))
    bring_up cfg key

  unfoldable pub tear_down : TunnelConfig → Action St ⊤
  tear_down cfg s = elim (lookup_iface E cfg.interface_name s.world) [
    | none ↦ (ok tt, s)
    | some idx ↦ outside (wrapping "deleteInterface" (E.link_delete idx)) (release_all cfg idx s)
  ]

  -- `recreateTunnel` with its teardown; the answer is the configuration that it leaves. On an error
  -- its callers drop that.
  unfoldable pub recreate_tunnel : TunnelConfig → Action St TunnelConfig
  recreate_tunnel cfg = do
    wrapping "preflight" (outside (load_private_key E cfg.id))
    wrapping "tearDown before recreate" (tear_down cfg)
    wrapping "bringUp failed (tunnel disabled)" (bring_up_tunnel cfg)
    pure (record cfg { enabled = true })

  -- The claim at the end of a hot update.
  unfoldable pub move_routes : TunnelConfig → ℕ → List String → ℤ → Action St ⊤
  unfolding strings_equal int_eq
  move_routes cfg idx old_ips old_metric s =
      let moved =
        wrapping "hot update: claimRoutes" (claim_all cfg idx)
          (release_routes E cfg.id idx old_ips old_metric s) in
      let changed =
        not (strings_equal old_ips (items cfg.allowed_ips))
        || not (old_metric == effective_metric cfg.route_metric) in
      elim changed [ true ↦ moved | false ↦ (ok tt, s) ]

  abbrev pub find_interface : String → Action St ℕ
  find_interface name s = (
    elim (lookup_iface E name s.world) [
      | none ↦ err (text "interface not found")
      | some idx ↦ ok idx
    ],
    s,
  )

  unfoldable pub hot_update : TunnelConfig → List String → ℤ → Action St ⊤
  hot_update cfg old_ips old_metric = do
    outside (update_peer E cfg.interface_name (peer_of cfg))
    idx ← find_interface cfg.interface_name
    move_routes cfg idx old_ips old_metric
