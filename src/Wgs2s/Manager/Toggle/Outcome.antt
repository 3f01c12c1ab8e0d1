-- ===== src/Wgs2s/Manager/Toggle/Outcome.antt =====
-- What `EnableTunnel`, `DisableTunnel` and `DeleteTunnel` leave in the configuration.
use mathlib.Core.Path.{subst}
use vpn_pack.Common.{
  ℕ, ◌≡◌, refl, sym, ◌∙◌, ap, ◌⊎◌, inl, inr, String, Bool, true, false, some, List, [], ◌∷◌, ⊤,
  Error, Result, ok, err, Action, pure, is_ok, delete_at, arith, Result-cases, Option-cases,
  Bool-cases, string_eq,
}
use vpn_pack.Ops.{Op, background, noop, run}
use vpn_pack.Ops.Background.{run-first_failed, run-second_failed, run-two, run-three}
use vpn_pack.Wgs2s.Config.{TunnelConfig}
use vpn_pack.Wgs2s.Env.{Env}
use vpn_pack.Wgs2s.RouteRefs.{RouteRefs}
use vpn_pack.Wgs2s.RouteRefs.Laws.{IsValid}
use vpn_pack.Wgs2s.Device.{lookup_iface}
use vpn_pack.Wgs2s.Tunnel.{St, bring_up_tunnel, tear_down}
use vpn_pack.Wgs2s.Tunnel.Refs.{
  Kept, Keeps, release_all-Kept, bring_up_tunnel-Keeps, tear_down-Keeps,
}
use vpn_pack.Wgs2s.Manager.{find_config}
use vpn_pack.Wgs2s.Manager.Update.Commit.{save-Keeps}
use vpn_pack.Wgs2s.Manager.Toggle.{
  switch, tear_down_if_enabled, remove_from_config, delete_keys, bring_up_step, tear_down_step,
  change_and_save, delete_steps, delete_tunnel, take_down, enable_steps, enable_tunnel,
  disable_steps, disable_tunnel,
}

module _ (E : Env) where
  take_down-Keeps : (cfg : TunnelConfig) → Keeps E (take_down E cfg)
  unfolding take_down
  take_down-Keeps cfg s = elim (Option-cases (lookup_iface E cfg.interface_name s.world)) [
    | inl e ↦ rw (e, take_down) (λ v. (refl, v))
    | inr (i, e) ↦ rw (e, take_down) (release_all-Kept E cfg i s)
  ]

  change_and_save-tunnels :
      (f : List TunnelConfig → List TunnelConfig) (s : St E)
      → IsValid s.refs
      → ((change_and_save E f s).1.tunnels ≡ f s.tunnels) × IsValid (change_and_save E f s).1.refs
  unfolding change_and_save
  change_and_save-tunnels f s v = save-Keeps E (record s { tunnels = f s.tunnels }) v

  -- A saga that changes the kernel and then the configuration.
  -- It ends so: the kernel's step failed and the configuration is as it was, or the kernel's step
  -- was done and the configuration was changed; then the saga's answer is the saving's.
  abbrev pub KernelFirst :
      Action (St E) ⊤ → (List TunnelConfig → List TunnelConfig) → St E → Result ⊤ × St E → Type 0
  KernelFirst kernel change s p =
      ((e : Error) × (t : St E) × (kernel s ≡ (err e, t))
        × (is_ok p.0 ≡ false)
        × (p.1.tunnels ≡ s.tunnels)
        × IsValid p.1.refs)
      ⊎ ((t : St E) × (kernel s ≡ (ok tt, t))
          × (is_ok p.0 ≡ is_ok (change_and_save E change t).0)
          × (p.1.tunnels ≡ change s.tunnels)
          × IsValid p.1.refs)

  moved :
      {A : Type 0} (f : Action (St E) A) (s t : St E) (r : Result A)
      → Keeps E f
      → f s ≡ (r, t)
      → Kept E s t
  moved {A} f s t r h q v =
      let (e, w) = h s v in
      (
        ap (λ (p : Result A × St E). p.1.tunnels) (sym q) ∙ e,
        subst (λ (p : Result A × St E). IsValid p.1.refs) q w,
      )

  -- The two steps, with `steps` behind them that succeed and leave the manager's own state.
  kernel_first :
      (a b : Op (St E)) (steps : List (Op (St E))) (f : List TunnelConfig → List TunnelConfig)
      (s : St E)
      → IsValid s.refs
      → Keeps E a.do_step
      → Keeps E a.undo
      → b.do_step ≡ change_and_save E f
      → ((t u : St E)
          → a.do_step s ≡ (ok tt, t)
          → b.do_step t ≡ (ok tt, u)
          → (w : St E) × (run background (a ∷ b ∷ steps) s ≡ (ok tt, w))
            × (w.tunnels ≡ u.tunnels)
            × (w.refs ≡ u.refs))
      → KernelFirst a.do_step f s (run background (a ∷ b ∷ steps) s)
  kernel_first a b steps f s v ha hu hb end = elim (Result-cases (a.do_step s)) [
    | inr (e, t, q) ↦
        let r = run-first_failed a (b ∷ steps) s t e q in
        let (same, w) = moved a.do_step s t (err e) ha q v in
        inl (
          e,
          t,
          q,
          ap (λ (p : Result ⊤ × St E). is_ok p.0) r,
          ap (λ (p : Result ⊤ × St E). p.1.tunnels) r ∙ same,
          subst (λ (p : Result ⊤ × St E). IsValid p.1.refs) (sym r) w,
        )
    | inl (_, t, q) ↦
        let (same, w) = moved a.do_step s t (ok tt) ha q v in
        let (saved, w') = change_and_save-tunnels f t w in
        elim (Result-cases (change_and_save E f t)) [
          | inl (_, u, o) ↦
              let (x, r, k, l) = end t u q (ap (λ (g : Action (St E) ⊤). g t) hb ∙ o) in
              inr (
                t,
                q,
                ap (λ (p : Result ⊤ × St E). is_ok p.0) r
                    ∙ sym (ap (λ (p : Result ⊤ × St E). is_ok p.0) o),
                ap (λ (p : Result ⊤ × St E). p.1.tunnels) r
                    ∙ k
                    ∙ sym (ap (λ (p : Result ⊤ × St E). p.1.tunnels) o)
                    ∙ saved
                    ∙ ap f same,
                subst (λ (rc : RouteRefs). IsValid rc)
                    (ap (λ (p : Result ⊤ × St E). p.1.refs) o
                      ∙ sym l
                      ∙ sym (ap (λ (p : Result ⊤ × St E). p.1.refs) r))
                    w',
              )
          | inr (m, u, o) ↦
              let (r, failed) =
                run-second_failed a b steps s t u (a.undo u).1 m (a.undo u).0 q
                  (ap (λ (g : Action (St E) ⊤). g t) hb ∙ o) refl in
              let undone = hu u (subst (λ (p : Result ⊤ × St E). IsValid p.1.refs) o w') in
              inr (
                t,
                q,
                failed ∙ sym (ap (λ (p : Result ⊤ × St E). is_ok p.0) o),
                ap (λ (x : St E). x.tunnels) r
                    ∙ undone.0
                    ∙ sym (ap (λ (p : Result ⊤ × St E). p.1.tunnels) o)
                    ∙ saved
                    ∙ ap f same,
                subst (λ (x : St E). IsValid x.refs) (sym r) undone.1,
              )
        ]
  ]

  if_enabled-Keeps :
      (cfg : TunnelConfig) (f : Action (St E) ⊤)
      → Keeps E f
      → Keeps E (elim cfg.enabled [ true ↦ f | false ↦ pure tt ])
  if_enabled-Keeps cfg f h s = elim (Bool-cases cfg.enabled) [
    | inl e ↦
        subst
          (λ (b : Bool).
            Kept E s ((elim b as (λ _. Action (St E) ⊤) [ true ↦ f | false ↦ pure tt ]) s).1)
          (sym e) (h s)
    | inr e ↦
        subst
          (λ (b : Bool).
            Kept E s ((elim b as (λ _. Action (St E) ⊤) [ true ↦ f | false ↦ pure tt ]) s).1)
          (sym e) (λ v. (refl, v))
  ]

  -- `EnableTunnel` of a disabled tunnel works on the kernel first. If the bring-up fails, so does
  -- the call, and the list of tunnels is as it was. If it succeeds, the tunnel is enabled in the
  -- list, and the call succeeds if and only if the saving does: when it fails, the list still has
  -- the tunnel enabled. The route counter stays well formed.
  pub enable_tunnel-KernelFirst :
      (id : String) (idx : ℕ) (cfg : TunnelConfig) (s : St E)
      → IsValid s.refs
      → find_config id s.tunnels ≡ some (idx, cfg)
      → cfg.enabled ≡ false
      → KernelFirst (bring_up_tunnel E cfg) (switch idx true) s (enable_tunnel E id s)
  unfolding enable_tunnel enable_steps
  enable_tunnel-KernelFirst id idx cfg s v f off =
      let save_step = noop "persist enabled=true to disk" (change_and_save E (switch idx true)) in
      let first = bring_up_step E cfg in
      let enabling : enable_tunnel E id s ≡ run background (first ∷ save_step ∷ []) s =
        ground arith in
      subst (KernelFirst (bring_up_tunnel E cfg) (switch idx true) s) (sym enabling) (
        kernel_first first save_step [] (switch idx true) s v (bring_up_tunnel-Keeps E cfg)
          (take_down-Keeps cfg) refl
          (λ t u q o. (u, run-two first save_step s t u q o, refl, refl)))

  -- `DisableTunnel` of an enabled tunnel works on the kernel first. If the teardown fails, so does
  -- the call, and the list of tunnels is as it was. If it succeeds, the tunnel is disabled in the
  -- list, and the call succeeds if and only if the saving does: when it fails, the list still has
  -- the tunnel disabled. The route counter stays well formed.
  pub disable_tunnel-KernelFirst :
      (id : String) (idx : ℕ) (cfg : TunnelConfig) (s : St E)
      → IsValid s.refs
      → find_config id s.tunnels ≡ some (idx, cfg)
      → cfg.enabled ≡ true
      → KernelFirst (tear_down E cfg) (switch idx false) s (disable_tunnel E id s)
  unfolding disable_tunnel disable_steps
  disable_tunnel-KernelFirst id idx cfg s v f on =
      let save_step = noop "persist enabled=false to disk" (change_and_save E (switch idx false)) in
      let first = tear_down_step E cfg in
      let disabling : disable_tunnel E id s ≡ run background (first ∷ save_step ∷ []) s =
        ground arith in
      subst (KernelFirst (tear_down E cfg) (switch idx false) s) (sym disabling) (
        kernel_first first save_step [] (switch idx false) s v (tear_down-Keeps E cfg)
          (bring_up_tunnel-Keeps E cfg) refl
          (λ t u q o. (u, run-two first save_step s t u q o, refl, refl)))

  -- `DeleteTunnel` works on the kernel first: it tears an enabled tunnel down. If that fails, so
  -- does the call, and the list of tunnels is as it was. If it succeeds, the tunnel is gone from
  -- the list, and the call succeeds if and only if the saving does: when it fails, the tunnel
  -- stays gone from the list. The route counter stays well formed.
  pub delete_tunnel-KernelFirst :
      (id : String) (idx : ℕ) (cfg : TunnelConfig) (s : St E)
      → IsValid s.refs
      → find_config id s.tunnels ≡ some (idx, cfg)
      → KernelFirst (tear_down_if_enabled E cfg).do_step (delete_at idx) s (delete_tunnel E id s)
  unfolding delete_tunnel delete_steps
  delete_tunnel-KernelFirst id idx cfg s v f =
      let first = tear_down_if_enabled E cfg in
      let second = remove_from_config E idx cfg in
      let third = delete_keys E cfg in
      let deleting : delete_tunnel E id s ≡ run background (first ∷ second ∷ third ∷ []) s =
        ground arith in
      subst (KernelFirst first.do_step (delete_at idx) s) (sym deleting) (
        kernel_first first second (third ∷ []) (delete_at idx) s v
          (if_enabled-Keeps cfg (tear_down E cfg) (tear_down-Keeps E cfg))
          (if_enabled-Keeps cfg (bring_up_tunnel E cfg) (bring_up_tunnel-Keeps E cfg)) refl
          (λ t u q o. (
            (third.do_step u).1,
            run-three first second third s t u (third.do_step u).1 q o refl,
            refl,
            refl,
          )))
