-- ===== src/Wgs2s/Tunnel/Frame.antt =====
-- The calls on a tunnel's kernel side, along any relation of states that the world does not matter
-- to (manager/internal/wgs2s/manager.go).
use vpn_pack.Common.{
  ℕ, inl, inr, String, true, ⊤, wrap, Result, ok, err, Action, pure, wrapping, ◌>>=◌, ◌>>◌,
  Option-cases,
}
use vpn_pack.Wgs2s.Config.{TunnelConfig}
use vpn_pack.Wgs2s.Env.{Env, outside}
use vpn_pack.Wgs2s.Keys.{load_private_key}
use vpn_pack.Wgs2s.Device.{lookup_iface, create_interface}
use vpn_pack.Wgs2s.Tunnel.{
  St, release_all, claim_all, delete_existing, cleanup_existing_interface, or_delete,
  configure_link, bring_up, bring_up_tunnel, tear_down, recreate_tunnel,
}

module _ (E : Env) (R : St E → St E → Type 0) (R-trans : (s t u : St E) → R s t → R t u → R s u)
    (R-world : (s : St E) (w : E.World) → R s (record s { world = w })) where
  abbrev pub Along : {A : Type 0} → Action (St E) A → Type 0
  Along f = (s : St E) → R s (f s).1

  pub >>=-Along :
      {A B : Type 0} (m : Action (St E) A) (f : A → Action (St E) B)
      → Along m
      → ((a : A) → Along (f a))
      → Along (m >>= f)
  >>=-Along {A} {B} m f hm hf s = after (m s) (hm s)
    where
      after :
          (p : Result A × St E)
          → R s p.1
          → R s (elim p.0 as (λ _. Result B × St E) [ ok a ↦ f a p.1 | err e ↦ (err e, p.1) ]).1
      after (ok a, t) h = R-trans s t (f a t).1 h (hf a t)
      after (err e, t) h = h

  pub wrapping-Along :
      {A : Type 0} (m : String) (f : Action (St E) A) → Along f → Along (wrapping m f)
  wrapping-Along {A} m f h s = after (f s) (h s)
    where
      after :
          (p : Result A × St E)
          → R s p.1
          → R s
              (elim p.0 as (λ _. Result A × St E) [
                | ok a ↦ (ok a, p.1)
                | err e ↦ (err (wrap m e), p.1)
              ]).1
      after (ok a, t) k = k
      after (err e, t) k = k

  pub outside-Along : {A : Type 0} (f : Action E.World A) → Along (outside f)
  outside-Along f s = R-world s (f s.world).1

  or_delete-Along :
      {A : Type 0} (idx : ℕ) (f : Action (St E) A) → Along f → Along (or_delete E idx f)
  unfolding or_delete
  or_delete-Along {A} idx f h s = after (f s) (h s)
    where
      after :
          (p : Result A × St E)
          → R s p.1
          → R s
              (elim p.0 as (λ _. Result A × St E) [
                | ok a ↦ (ok a, p.1)
                | err e ↦ (err e, record (p.1) { world = (E.link_delete idx p.1.world).1 })
              ]).1
      after (ok a, t) k = k
      after (err e, t) k =
          R-trans s t (record t { world = (E.link_delete idx t.world).1 }) k
            (R-world t (E.link_delete idx t.world).1)

  -- The calls for a configuration, where releasing and claiming its routes is along the relation.
  module _ (cfg : TunnelConfig) (R-release : (idx : ℕ) (s : St E) → R s (release_all E cfg idx s))
      (R-claim : (idx : ℕ) → Along (claim_all E cfg idx)) where
    pub cleanup-Along : Along (cleanup_existing_interface E cfg)
    unfolding cleanup_existing_interface
    cleanup-Along s = elim (Option-cases (lookup_iface E cfg.interface_name s.world)) [
      | inl e ↦ rw (e, cleanup_existing_interface) (R-world s s.world)
      | inr (i, e) ↦
          rw (e, cleanup_existing_interface)
            (R-trans s (release_all E cfg i s) _ (R-release i s) (
              R-world (release_all E cfg i s)
                (delete_existing E cfg.interface_name i (release_all E cfg i s).world).1))
    ]

    pub tear_down-Along : Along (tear_down E cfg)
    unfolding tear_down
    tear_down-Along s = elim (Option-cases (lookup_iface E cfg.interface_name s.world)) [
      | inl e ↦ rw (e, tear_down) (R-world s s.world)
      | inr (i, e) ↦
          rw (e, tear_down)
            (R-trans s (release_all E cfg i s) _ (R-release i s) (
              R-world (release_all E cfg i s)
                (wrapping "deleteInterface" (E.link_delete i) (release_all E cfg i s).world).1))
    ]

    pub bring_up-Along : (key : E.Key) → Along (bring_up E cfg key)
    unfolding bring_up
    bring_up-Along key =
        let configure : ℕ → Action (St E) ⊤ = λ idx. outside (configure_link E cfg key idx) in
        let create : Action (St E) ℕ = outside (create_interface E cfg.interface_name) in
        let routes : ℕ → Action (St E) ⊤ = claim_all E cfg in
        let link : ℕ → Action (St E) ⊤ = λ idx. or_delete E idx (configure idx >> routes idx) in
        >>=-Along (cleanup_existing_interface E cfg) (λ _. create >>= link) cleanup-Along
          (λ _.
            >>=-Along create link (outside-Along (create_interface E cfg.interface_name)) (λ idx.
              or_delete-Along idx (configure idx >> routes idx) (
                >>=-Along (configure idx) (λ _. routes idx)
                  (outside-Along (configure_link E cfg key idx)) (λ _. R-claim idx))))

    loading-Along :
        (m : String) (id : String) → Along (wrapping m (outside (load_private_key E id)))
    loading-Along m id =
        wrapping-Along m (outside (load_private_key E id)) (outside-Along (load_private_key E id))

    pub bring_up_tunnel-Along : Along (bring_up_tunnel E cfg)
    unfolding bring_up_tunnel
    bring_up_tunnel-Along =
        >>=-Along (wrapping "load key" (outside (load_private_key E cfg.id))) (bring_up E cfg)
          (loading-Along "load key" cfg.id) bring_up-Along

    pub recreate_tunnel-Along : Along (recreate_tunnel E cfg)
    unfolding recreate_tunnel
    recreate_tunnel-Along =
        let m : String = "bringUp failed (tunnel disabled)" in
        let last : Action (St E) TunnelConfig = pure (record cfg { enabled = true }) in
        let up : Action (St E) ⊤ = wrapping m (bring_up_tunnel E cfg) in
        let down : Action (St E) ⊤ = wrapping "tearDown before recreate" (tear_down E cfg) in
        >>=-Along (wrapping "preflight" (outside (load_private_key E cfg.id)))
          (λ _. down >> (up >> last)) (loading-Along "preflight" cfg.id)
          (λ _.
            >>=-Along down (λ _. up >> last)
              (wrapping-Along "tearDown before recreate" (tear_down E cfg) tear_down-Along)
              (λ _.
                >>=-Along up (λ _. last)
                  (wrapping-Along m (bring_up_tunnel E cfg) bring_up_tunnel-Along)
                  (λ _ s. R-world s s.world)))
