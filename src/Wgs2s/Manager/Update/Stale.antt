-- ===== src/Wgs2s/Manager/Update/Stale.antt =====
-- Which routes an update that recreates the tunnel touches (manager/internal/wgs2s/manager.go).
use Prim.Native.String.{◌++◌ as ◌<>◌}
use mathlib.Core.Path.{subst}
use vpn_pack.Common.{
  ℕ, ◌≡◌, refl, String, true, false, some, ⊤, Result, ok, err, Action, wrapping, ◌>>=◌, set,
}
use vpn_pack.Atomic.{write_file}
use vpn_pack.Wgs2s.Config.{TunnelConfig}
use vpn_pack.Wgs2s.Env.{Env, outside}
use vpn_pack.Wgs2s.RouteRefs.{RouteKey}
use vpn_pack.Wgs2s.RouteRefs.Laws.{IsValid, owned}
use vpn_pack.Wgs2s.Keys.{secret_perm}
use vpn_pack.Wgs2s.Tunnel.{St}
use vpn_pack.Wgs2s.Tunnel.Frame.{>>=-Along, wrapping-Along, outside-Along}
use vpn_pack.Wgs2s.Tunnel.Stale.{has_route, Only, Only-trans, Only-world, recreate_tunnel-Only}
use vpn_pack.Wgs2s.Manager.{find_config, save}
use vpn_pack.Wgs2s.Manager.Update.{
  apply_updates, needs_recreate, check_address, preflight_endpoint, preflight_port, preflight,
  apply_kernel, local_change, commit, update_found, update_tunnel,
}

module _ (E : Env) (cfg merged : TunnelConfig) where
  abbrev Within : {A : Type 0} → Action (St E) A → Type 0
  Within f = (s : St E) → Only E merged s (f s).1

  then-Within :
      {A B : Type 0} (m : Action (St E) A) (f : A → Action (St E) B)
      → Within m
      → ((a : A) → Within (f a))
      → Within (m >>= f)
  then-Within = >>=-Along E (Only E merged) (Only-trans E merged) (Only-world E merged)

  save-Within : Within (save E)
  unfolding save
  save-Within =
      let json : Action (St E) String = wrapping "marshal config" (λ s. (E.marshal s.tunnels, s)) in
      let write : String → Action E.World ⊤ =
        λ text. write_file E.fs (E.config_dir <> "/tunnels.json") text (secret_perm E) in
      then-Within json (λ text. wrapping "save config" (outside (write text)))
        (wrapping-Along E (Only E merged) (Only-trans E merged) (Only-world E merged)
          "marshal config" (λ s. (E.marshal s.tunnels, s)) (λ s. Only-world E merged s s.world))
        (λ text.
          wrapping-Along E (Only E merged) (Only-trans E merged) (Only-world E merged) "save config"
            (outside (write text))
            (outside-Along E (Only E merged) (Only-trans E merged) (Only-world E merged)
              (write text)))

  committed-Within :
      (idx : ℕ) (old new : TunnelConfig) (s : St E) (p : Result ⊤ × St E)
      → Only E merged s p.1
      → Only E merged s
          (elim p.0 as (λ _. Result TunnelConfig × St E) [
            | ok _ ↦ (ok new, p.1)
            | err e ↦ (err e, record (p.1) { tunnels = set p.1.tunnels idx old })
          ]).1
  committed-Within idx old new s (ok _, t) h = h
  committed-Within idx old new s (err _, t) h = h

  commit-Within : (idx : ℕ) (old new : TunnelConfig) → Within (commit E idx old new)
  unfolding commit
  commit-Within idx old new s =
      let start : St E = record s { tunnels = set s.tunnels idx new } in
      committed-Within idx old new s (save E start) (save-Within start)

  preflight-Within : Within (preflight E cfg merged)
  unfolding preflight preflight_endpoint preflight_port
  preflight-Within =
      then-Within (preflight_endpoint E cfg merged) (λ _. preflight_port E cfg merged)
        (λ s v. (v, λ k i n. refl)) (λ _ s v. (v, λ k i n. refl))

  local_change-Within :
      cfg.enabled ≡ true → needs_recreate cfg merged ≡ true → Within (local_change E cfg merged)
  unfolding local_change apply_kernel
  local_change-Within on again s =
      rw (on, local_change)
        (then-Within (preflight E cfg merged) (λ _. apply_kernel E cfg merged) preflight-Within
          (λ _ t. rw (again, apply_kernel) (recreate_tunnel-Only E merged t)) s)

  update_found-Within :
      (idx : ℕ) (updates : TunnelConfig)
      → merged ≡ apply_updates cfg updates
      → cfg.enabled ≡ true
      → needs_recreate cfg merged ≡ true
      → Within (update_found E idx cfg updates)
  unfolding update_found check_address
  update_found-Within idx updates e on again =
      subst
        (λ (m : TunnelConfig).
          Within (check_address E m >>= λ _. local_change E cfg m >>= commit E idx cfg))
        e
        (then-Within (check_address E merged) (λ _. local_change E cfg merged >>= commit E idx cfg)
          (λ s v. (v, λ k i n. refl))
          (λ _.
            then-Within (local_change E cfg merged) (commit E idx cfg)
              (local_change-Within on again) (λ new. commit-Within idx cfg new)))

module _ (E : Env) where
  -- An update of an enabled tunnel that needs its recreation, for a route counter that is well
  -- formed and whatever the update answers, changes no owner of a route that the merged
  -- configuration does not have: a tunnel that gives such a route up is still counted as its owner.
  pub update_tunnel-stale :
      (id : String) (idx : ℕ) (cfg updates : TunnelConfig) (s : St E) (k : RouteKey) (i : String)
      → IsValid s.refs
      → find_config id s.tunnels ≡ some (idx, cfg)
      → cfg.enabled ≡ true
      → needs_recreate cfg (apply_updates cfg updates) ≡ true
      → has_route E (apply_updates cfg updates) k ≡ false
      → owned k i (update_tunnel E id updates s).1.refs ≡ owned k i s.refs
  unfolding update_tunnel
  update_tunnel-stale id idx cfg updates s k i v f on again none_there =
      let within =
        update_found-Within E cfg (apply_updates cfg updates) idx updates refl on again s in
      rw (f, update_tunnel) ((within v).1 k i none_there)
