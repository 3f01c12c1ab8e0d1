-- ===== src/Wgs2s/Manager/Toggle/Retry.antt =====
-- `EnableTunnel` and `DisableTunnel` called again after a saving that failed.
use vpn_pack.Common.{
  ℕ, zero, suc, ◌<◌, length, ◌≡◌, refl, sym, ◌∙◌, ap, inl, inr, String, Bool, true, false, some,
  List, [], ◌∷◌, ⊤, Error, Result, ok, err, set, get_elem?, get_elem?-set_self, arith, string_eq,
}
use vpn_pack.Wgs2s.Config.{TunnelConfig}
use vpn_pack.Wgs2s.Env.{Env}
use vpn_pack.Wgs2s.RouteRefs.Laws.{IsValid}
use vpn_pack.Wgs2s.Tunnel.{St, bring_up_tunnel, tear_down}
use vpn_pack.Wgs2s.Manager.{find_tunnel, find_config}
use vpn_pack.Wgs2s.Manager.Update.Commit.{find_config-get_elem?}
use vpn_pack.Wgs2s.Manager.Toggle.{switch, enable_tunnel, disable_tunnel}
use vpn_pack.Wgs2s.Manager.Toggle.Outcome.{enable_tunnel-KernelFirst, disable_tunnel-KernelFirst}

find_tunnel-set :
    (id : String) (ts : List TunnelConfig) (idx : ℕ) (c d : TunnelConfig)
    → get_elem? ts idx ≡ some c
    → d.id ≡ c.id
    → find_tunnel id (set ts idx d) ≡ find_tunnel id ts
unfolding find_tunnel
find_tunnel-set id [] idx c d h e = refl
find_tunnel-set id (t ∷ ts) zero c d h e = ground arith
find_tunnel-set id (t ∷ ts) (suc idx) c d h e = rw (find_tunnel-set id ts idx c d h e) refl

get_elem?-bound :
    (ts : List TunnelConfig) (idx : ℕ) (c : TunnelConfig)
    → get_elem? ts idx ≡ some c
    → idx < length ts
get_elem?-bound [] idx c h = ground arith
get_elem?-bound (t ∷ ts) zero c h = omega arith
get_elem?-bound (t ∷ ts) (suc idx) c h = let k = get_elem?-bound ts idx c h in omega arith

find_config-switch :
    (id : String) (ts : List TunnelConfig) (idx : ℕ) (cfg : TunnelConfig) (on : Bool)
    → find_config id ts ≡ some (idx, cfg)
    → find_config id (switch idx on ts) ≡ some (idx, record cfg { enabled = on })
unfolding find_config switch
find_config-switch id ts idx cfg on f =
    let g = find_config-get_elem? id ts idx cfg f in
    let new : TunnelConfig = record cfg { enabled = on } in
    let same = find_tunnel-set id ts idx cfg new g refl in
    let here = get_elem?-set_self ts idx new (get_elem?-bound ts idx cfg g) in
    ground (arith, same, here)

module _ (E : Env) where
  -- Where `EnableTunnel` of a disabled tunnel has brought the tunnel up and then failed, because
  -- the configuration could not be saved, calling it again returns success and does nothing at all.
  pub enable_tunnel-retry :
      (id : String) (idx : ℕ) (cfg : TunnelConfig) (s t u : St E) (e : Error)
      → IsValid s.refs
      → find_config id s.tunnels ≡ some (idx, cfg)
      → cfg.enabled ≡ false
      → bring_up_tunnel E cfg s ≡ (ok tt, u)
      → enable_tunnel E id s ≡ (err e, t)
      → enable_tunnel E id t ≡ (ok tt, t)
  unfolding enable_tunnel
  enable_tunnel-retry id idx cfg s t u e v f off up failed =
      elim (enable_tunnel-KernelFirst E id idx cfg s v f off) [
        | inl (m, w, k, _, _, _) ↦ absurd (ground arith)
        | inr (w, _, _, same, _) ↦
            let after : t.tunnels ≡ switch idx true s.tunnels =
              ap (λ (p : Result ⊤ × St E). p.1.tunnels) (sym failed) ∙ same in
            let found : find_config id t.tunnels ≡ some (idx, record cfg { enabled = true }) =
              ap (find_config id) after ∙ find_config-switch id s.tunnels idx cfg true f in
            ground arith
      ]

  -- Where `DisableTunnel` of an enabled tunnel has torn the tunnel down and then failed, because
  -- the configuration could not be saved, calling it again returns success and does nothing at all.
  pub disable_tunnel-retry :
      (id : String) (idx : ℕ) (cfg : TunnelConfig) (s t u : St E) (e : Error)
      → IsValid s.refs
      → find_config id s.tunnels ≡ some (idx, cfg)
      → cfg.enabled ≡ true
      → tear_down E cfg s ≡ (ok tt, u)
      → disable_tunnel E id s ≡ (err e, t)
      → disable_tunnel E id t ≡ (ok tt, t)
  unfolding disable_tunnel
  disable_tunnel-retry id idx cfg s t u e v f on down failed =
      elim (disable_tunnel-KernelFirst E id idx cfg s v f on) [
        | inl (m, w, k, _, _, _) ↦ absurd (ground arith)
        | inr (w, _, _, same, _) ↦
            let after : t.tunnels ≡ switch idx false s.tunnels =
              ap (λ (p : Result ⊤ × St E). p.1.tunnels) (sym failed) ∙ same in
            let found : find_config id t.tunnels ≡ some (idx, record cfg { enabled = false }) =
              ap (find_config id) after ∙ find_config-switch id s.tunnels idx cfg false f in
            ground arith
      ]
