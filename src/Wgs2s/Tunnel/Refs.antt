-- ===== src/Wgs2s/Tunnel/Refs.antt =====
-- What a call on a tunnel's kernel side does to the stored configuration and to the route counter
-- (manager/internal/wgs2s/manager.go).
use vpn_pack.Common.{
  ℕ, ◌≡◌, refl, ◌∙◌, inl, inr, String, List, [], ◌∷◌, ◌++◌, ⊤, Result, ok, err, Action, wrapping,
  ◌>>=◌, arith, Bool-cases, not, ◌||◌, ◌==◌,
}
use vpn_pack.Common.Int.{ℤ}
use vpn_pack.Wgs2s.Config.{TunnelConfig, items, effective_metric}
use vpn_pack.Wgs2s.Env.{Env, outside}
use vpn_pack.Wgs2s.RouteRefs.Laws.{IsValid}
use vpn_pack.Wgs2s.Routes.{claim_one, claim_from, claim_routes, release_routes}
use vpn_pack.Wgs2s.Routes.Ownership.{Claimed, claim_routes-Claimed, release_routes-Owning}
use vpn_pack.Wgs2s.Device.{update_peer, peer_of}
use vpn_pack.Wgs2s.Tunnel.Frame.{
  >>=-Along, wrapping-Along, outside-Along, tear_down-Along, bring_up-Along, bring_up_tunnel-Along,
  recreate_tunnel-Along,
}
use vpn_pack.Wgs2s.Tunnel.{
  St, int_eq, strings_equal, release_all, claim_all, bring_up, bring_up_tunnel, tear_down,
  recreate_tunnel, find_interface, move_routes, hot_update,
}

module _ (E : Env) where
  -- From one state to another, the configuration is the same and the counter stays well formed.
  abbrev pub Kept : St E → St E → Type 0
  Kept s t = IsValid s.refs → (t.tunnels ≡ s.tunnels) × IsValid t.refs

  abbrev pub Keeps : {A : Type 0} → Action (St E) A → Type 0
  Keeps f = (s : St E) → Kept s (f s).1

  pub Kept-trans : (s t u : St E) → Kept s t → Kept t u → Kept s u
  Kept-trans s t u h k v = let (e, w) = h v in let (e', w') = k w in (e' ∙ e, w')

  Kept-world : (s : St E) (w : E.World) → Kept s (record s { world = w })
  Kept-world s w v = (refl, v)

  pub >>=-Keeps :
      {A B : Type 0} (m : Action (St E) A) (f : A → Action (St E) B)
      → Keeps m
      → ((a : A) → Keeps (f a))
      → Keeps (m >>= f)
  >>=-Keeps = >>=-Along E Kept Kept-trans Kept-world

  pub wrapping-Keeps :
      {A : Type 0} (m : String) (f : Action (St E) A) → Keeps f → Keeps (wrapping m f)
  wrapping-Keeps = wrapping-Along E Kept Kept-trans Kept-world

  pub outside-Keeps : {A : Type 0} (f : Action E.World A) → Keeps (outside f)
  outside-Keeps = outside-Along E Kept Kept-trans Kept-world

  release_routes-tunnels :
      (id : String) (idx : ℕ) (cidrs : List String) (metric : ℤ) (s : St E)
      → (release_routes E id idx cidrs metric s).tunnels ≡ s.tunnels
  unfolding release_routes
  release_routes-tunnels id idx [] metric s = refl
  release_routes-tunnels id idx (cidr ∷ cidrs) metric s =
      release_routes-tunnels id idx cidrs metric _

  pub release_routes-Kept :
      (id : String) (idx : ℕ) (cidrs : List String) (metric : ℤ) (s : St E)
      → Kept s (release_routes E id idx cidrs metric s)
  release_routes-Kept id idx cidrs metric s v = (
    release_routes-tunnels id idx cidrs metric s,
    (release_routes-Owning E id metric idx cidrs s v).0,
  )

  pub release_all-Kept :
      (cfg : TunnelConfig) (idx : ℕ) (s : St E) → Kept s (release_all E cfg idx s)
  unfolding release_all
  release_all-Kept cfg idx s =
      release_routes-Kept cfg.id idx (items cfg.allowed_ips) (effective_metric cfg.route_metric) s

  claim_one-tunnels :
      (id : String) (idx : ℕ) (known : List String) (cidr : String) (metric : ℤ) (s : St E)
      → (claim_one E id idx known cidr metric s).1.tunnels ≡ s.tunnels
  unfolding claim_one
  claim_one-tunnels id idx known cidr metric s = ground arith

  claim_from-tunnels :
      (id : String) (idx : ℕ) (registered cidrs : List String) (metric : ℤ) (s : St E)
      → (claim_from E id idx registered cidrs metric s).1.tunnels ≡ s.tunnels
  unfolding claim_from
  claim_from-tunnels id idx registered [] metric s = refl
  claim_from-tunnels id idx registered (cidr ∷ cidrs) metric s =
      let known = registered ++ (cidr ∷ []) in
      ground (
        arith,
        claim_one-tunnels id idx known cidr metric s,
        claim_from-tunnels id idx known cidrs metric (claim_one E id idx known cidr metric s).1,
      )

  Claimed-IsValid :
      (id : String) (metric : ℤ) (idx : ℕ) (cidrs : List String) (s : St E) (p : Result ⊤ × St E)
      → Claimed E id metric idx [] cidrs s p
      → IsValid p.1.refs
  Claimed-IsValid id metric idx cidrs s (ok _, t) c = c.0
  Claimed-IsValid id metric idx cidrs s (err e, t)
        (front, cidr, left, split, u, all, refused, v, own) =
      v

  pub claim_all-Keeps : (cfg : TunnelConfig) (idx : ℕ) → Keeps (claim_all E cfg idx)
  unfolding claim_all claim_routes
  claim_all-Keeps cfg idx s v =
      let cidrs = items cfg.allowed_ips in
      let metric = effective_metric cfg.route_metric in
      (
        claim_from-tunnels cfg.id idx [] cidrs metric s,
        Claimed-IsValid cfg.id metric idx cidrs s _
            (claim_routes-Claimed E cfg.id metric idx cidrs s v),
      )

  module _ (cfg : TunnelConfig) where
    pub tear_down-Keeps : Keeps (tear_down E cfg)
    tear_down-Keeps =
        tear_down-Along E Kept Kept-trans Kept-world cfg (release_all-Kept cfg)
          (claim_all-Keeps cfg)

    pub bring_up-Keeps : (key : E.Key) → Keeps (bring_up E cfg key)
    bring_up-Keeps =
        bring_up-Along E Kept Kept-trans Kept-world cfg (release_all-Kept cfg) (claim_all-Keeps cfg)

    pub bring_up_tunnel-Keeps : Keeps (bring_up_tunnel E cfg)
    bring_up_tunnel-Keeps =
        bring_up_tunnel-Along E Kept Kept-trans Kept-world cfg (release_all-Kept cfg)
          (claim_all-Keeps cfg)

    pub recreate_tunnel-Keeps : Keeps (recreate_tunnel E cfg)
    recreate_tunnel-Keeps =
        recreate_tunnel-Along E Kept Kept-trans Kept-world cfg (release_all-Kept cfg)
          (claim_all-Keeps cfg)

  move_routes-Keeps :
      (cfg : TunnelConfig) (idx : ℕ) (ips : List String) (metric : ℤ)
      → Keeps (move_routes E cfg idx ips metric)
  unfolding move_routes
  move_routes-Keeps cfg idx ips metric s =
      let old = not (strings_equal ips (items cfg.allowed_ips)) in
      let changed = old || not (metric == effective_metric cfg.route_metric) in
      let released = release_routes E cfg.id idx ips metric s in
      let claim = claim_all E cfg idx in
      elim (Bool-cases changed) [
        | inl e ↦
            rw (e, move_routes)
              (Kept-trans s released (wrapping "hot update: claimRoutes" claim released).1
                (release_routes-Kept cfg.id idx ips metric s)
                (wrapping-Keeps "hot update: claimRoutes" claim (claim_all-Keeps cfg idx) released))
        | inr e ↦ rw (e, move_routes) (λ v. (refl, v))
      ]

  pub hot_update-Keeps :
      (cfg : TunnelConfig) (ips : List String) (metric : ℤ) → Keeps (hot_update E cfg ips metric)
  unfolding hot_update
  hot_update-Keeps cfg ips metric =
      let find = find_interface E cfg.interface_name in
      let move : ℕ → Action (St E) ⊤ = λ idx. move_routes E cfg idx ips metric in
      let peer : Action (St E) ⊤ = outside (update_peer E cfg.interface_name (peer_of cfg)) in
      >>=-Keeps peer (λ _. find >>= move)
        (outside-Keeps (update_peer E cfg.interface_name (peer_of cfg)))
        (λ _. >>=-Keeps find move (λ s v. (refl, v)) (λ idx. move_routes-Keeps cfg idx ips metric))
