-- ===== src/Wgs2s/Tunnel/Stale.antt =====
-- Which routes a recreated tunnel touches (manager/internal/wgs2s/manager.go).
use mathlib.Core.List.{append_assoc}
use vpn_pack.Common.{
  ℕ, sym, ◌∷◌, ◌≡◌, refl, ap, ◌∙◌, String, Bool, false, [], ⊤, Result, ok, err, string_eq, arith,
  ◌++◌,
}
use vpn_pack.Wgs2s.Config.{TunnelConfig, items, effective_metric}
use vpn_pack.Wgs2s.Env.{Env}
use vpn_pack.Wgs2s.RouteRefs.{RouteKey}
use vpn_pack.Wgs2s.RouteRefs.Laws.{IsValid, owned}
use vpn_pack.Wgs2s.Routes.Ownership.{
  routed, routed-append, Claimed, claim_routes-Claimed, release_routes-Owning,
}
use vpn_pack.Wgs2s.Tunnel.{St, release_all, claim_all, recreate_tunnel}
use vpn_pack.Wgs2s.Tunnel.Frame.{recreate_tunnel-Along}

module _ (E : Env) (cfg : TunnelConfig) where
  -- Whether the configuration has the route.
  abbrev pub has_route : RouteKey → Bool
  has_route k = routed E.net (effective_metric cfg.route_metric) (items cfg.allowed_ips) k

  -- From one state to another, only routes of the configuration change their owners.
  abbrev pub Only : St E → St E → Type 0
  Only s t =
      IsValid s.refs
      → IsValid t.refs
        × ((k : RouteKey) (i : String) → has_route k ≡ false → owned k i t.refs ≡ owned k i s.refs)

  pub Only-trans : (s t u : St E) → Only s t → Only t u → Only s u
  Only-trans s t u h k v =
      let (w, e) = h v in let (w', e') = k w in (w', λ r i n. e' r i n ∙ e r i n)

  pub Only-world : (s : St E) (w : E.World) → Only s (record s { world = w })
  Only-world s w v = (v, λ k i n. refl)

  release_all-Only : (idx : ℕ) (s : St E) → Only s (release_all E cfg idx s)
  unfolding release_all
  release_all-Only idx s v =
      let (w, own) =
        release_routes-Owning E cfg.id (effective_metric cfg.route_metric) idx
          (items cfg.allowed_ips) s v in
      (w, λ k i n. ground (arith, own k i))

  Claimed-Only :
      (idx : ℕ) (s : St E) (p : Result ⊤ × St E)
      → Claimed E cfg.id (effective_metric cfg.route_metric) idx [] (items cfg.allowed_ips) s p
      → IsValid p.1.refs
        × ((k : RouteKey) (i : String)
            → has_route k ≡ false
            → owned k i p.1.refs ≡ owned k i s.refs)
  Claimed-Only idx s (ok _, t) (v, own, _) = (v, λ k i n. ground (arith, own k i))
  Claimed-Only idx s (err e, t) (front, cidr, left, split, u, all, refused, v, own) = (
    v,
    λ k i n.
        let metric = effective_metric cfg.route_metric in
        let tried = front ++ (cidr ∷ []) in
        let both = routed-append E.net metric tried left k in
        let whole = split ∙ sym (append_assoc front (cidr ∷ []) left) in
        let parts : has_route k ≡ routed E.net metric (tried ++ left) k =
          ap (λ xs. routed E.net metric xs k) whole in
        let none_tried : routed E.net metric tried k ≡ false = ground (arith, both, parts) in
        ground (arith, own k i, none_tried),
  )

  claim_all-Only : (idx : ℕ) (s : St E) → Only s (claim_all E cfg idx s).1
  unfolding claim_all
  claim_all-Only idx s v = Claimed-Only idx s (claim_all E cfg idx s) (
      claim_routes-Claimed E cfg.id (effective_metric cfg.route_metric) idx (items cfg.allowed_ips)
        s v)

  pub recreate_tunnel-Only : (s : St E) → Only s (recreate_tunnel E cfg s).1
  recreate_tunnel-Only =
      recreate_tunnel-Along E Only Only-trans Only-world cfg release_all-Only claim_all-Only
