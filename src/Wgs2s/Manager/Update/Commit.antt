-- ===== src/Wgs2s/Manager/Update/Commit.antt =====
-- What `UpdateTunnel` leaves in the configuration.
use mathlib.Core.Path.{subst}
use Prim.Native.String.{◌++◌ as ◌<>◌}
use vpn_pack.Atomic.{write_file}
use vpn_pack.Wgs2s.Keys.{secret_perm}
use vpn_pack.Common.{
  ℕ, zero, suc, [], ◌∷◌, ◌≡◌, refl, sym, ◌∙◌, ap, inl, inr, String, true, some, List, ⊤, Error,
  Result, ok, err, Action, wrapping, ◌>>=◌, ◌>>◌, set, set-set, get_elem?, arith, Result-cases,
  Bool-cases, >>=-ok, >>=-err,
}
use vpn_pack.Wgs2s.Config.{TunnelConfig, items, effective_metric}
use vpn_pack.Wgs2s.Env.{Env, outside}
use vpn_pack.Wgs2s.RouteRefs.{RouteRefs}
use vpn_pack.Wgs2s.RouteRefs.Laws.{IsValid}
use vpn_pack.Wgs2s.Tunnel.{St, recreate_tunnel, hot_update}
use vpn_pack.Wgs2s.Tunnel.Refs.{
  Kept, Keeps, Kept-trans, >>=-Keeps, wrapping-Keeps, outside-Keeps, recreate_tunnel-Keeps,
  hot_update-Keeps,
}
use vpn_pack.Wgs2s.Manager.{find_config, save}
use vpn_pack.Wgs2s.Manager.Update.{
  apply_updates, needs_recreate, check_address, preflight_endpoint, preflight_port, preflight,
  apply_kernel, commit, local_change, update_found, update_tunnel,
}

-- A place that is found holds what was found.
pub find_config-get_elem? :
    (id : String) (ts : List TunnelConfig) (idx : ℕ) (cfg : TunnelConfig)
    → find_config id ts ≡ some (idx, cfg)
    → get_elem? ts idx ≡ some cfg
unfolding find_config
find_config-get_elem? id ts idx cfg h = ground arith

pub set-get_elem? :
    (ts : List TunnelConfig) (idx : ℕ) (cfg : TunnelConfig)
    → get_elem? ts idx ≡ some cfg
    → set ts idx cfg ≡ ts
set-get_elem? [] idx cfg h = refl
set-get_elem? (t ∷ ts) zero cfg h = ground arith
set-get_elem? (t ∷ ts) (suc idx) cfg h =
    ap (λ (us : List TunnelConfig). t ∷ us) (set-get_elem? ts idx cfg h)

module _ (E : Env) where
  pub save-Keeps : Keeps E (save E)
  unfolding save
  save-Keeps =
      let json : Action (St E) String = wrapping "marshal config" (λ s. (E.marshal s.tunnels, s)) in
      let write : String → Action E.World ⊤ =
        λ text. write_file E.fs (E.config_dir <> "/tunnels.json") text (secret_perm E) in
      >>=-Keeps E json (λ text. wrapping "save config" (outside (write text)))
        (wrapping-Keeps E "marshal config" (λ s. (E.marshal s.tunnels, s)) (λ s v. (refl, v)))
        (λ text.
          wrapping-Keeps E "save config" (outside (write text)) (outside-Keeps E (write text)))

  preflight_port-Keeps : (cfg merged : TunnelConfig) → Keeps E (preflight_port E cfg merged)
  unfolding preflight_port
  preflight_port-Keeps cfg merged s v = (refl, v)

  preflight_endpoint-Keeps : (cfg merged : TunnelConfig) → Keeps E (preflight_endpoint E cfg merged)
  unfolding preflight_endpoint
  preflight_endpoint-Keeps cfg merged s v = (refl, v)

  preflight-Keeps : (cfg merged : TunnelConfig) → Keeps E (preflight E cfg merged)
  unfolding preflight
  preflight-Keeps cfg merged =
      >>=-Keeps E (preflight_endpoint E cfg merged) (λ _. preflight_port E cfg merged)
        (preflight_endpoint-Keeps cfg merged) (λ _. preflight_port-Keeps cfg merged)

  hot-Keeps :
      (merged : TunnelConfig) (s : St E) (p : Result ⊤ × St E)
      → Kept E s p.1
      → Kept E s
          (elim p.0 as (λ _. Result TunnelConfig × St E) [
            | ok _ ↦ (ok merged, p.1)
            | err _ ↦ recreate_tunnel E merged p.1
          ]).1
  hot-Keeps merged s (ok _, t) h = h
  hot-Keeps merged s (err _, t) h =
      Kept-trans E s t (recreate_tunnel E merged t).1 h (recreate_tunnel-Keeps E merged t)

  apply_kernel-Keeps : (cfg merged : TunnelConfig) → Keeps E (apply_kernel E cfg merged)
  unfolding apply_kernel
  apply_kernel-Keeps cfg merged s =
      let ips = items cfg.allowed_ips in
      let metric = effective_metric cfg.route_metric in
      elim (Bool-cases (needs_recreate cfg merged)) [
        | inl e ↦ rw (e, apply_kernel) (recreate_tunnel-Keeps E merged s)
        | inr e ↦
            rw (e, apply_kernel)
              (hot-Keeps merged s (hot_update E merged ips metric s)
                (hot_update-Keeps E merged ips metric s))
      ]

  -- What the configuration becomes is the merged one.
  recreate_tunnel-ok :
      (cfg new : TunnelConfig) (s t : St E)
      → recreate_tunnel E cfg s ≡ (ok new, t)
      → new ≡ record cfg { enabled = true }
  unfolding recreate_tunnel
  recreate_tunnel-ok cfg new s t h = ground arith

  apply_kernel-ok :
      (cfg merged new : TunnelConfig) (s t : St E)
      → merged.enabled ≡ true
      → apply_kernel E cfg merged s ≡ (ok new, t)
      → new ≡ merged
  unfolding apply_kernel
  apply_kernel-ok cfg merged new s t on h = ground (
    arith,
    recreate_tunnel-ok merged new s t,
    recreate_tunnel-ok merged new
        (hot_update E merged (items cfg.allowed_ips) (effective_metric cfg.route_metric) s).1 t,
  )

  commit-ok :
      (idx : ℕ) (old new new' : TunnelConfig) (s t : St E)
      → IsValid s.refs
      → commit E idx old new s ≡ (ok new', t)
      → (new' ≡ new) × (t.tunnels ≡ set s.tunnels idx new) × IsValid t.refs
  unfolding commit
  commit-ok idx old new new' s t v h =
      let new_tunnels = set s.tunnels idx new in
      let start : St E = record s { tunnels = new_tunnels } in
      let (same, w) = save-Keeps start v in
      (ground arith, ground arith, subst (λ (rc : RouteRefs). IsValid rc) (ground arith) w)

  commit-err :
      (idx : ℕ) (old new : TunnelConfig) (e : Error) (s t : St E)
      → IsValid s.refs
      → get_elem? s.tunnels idx ≡ some old
      → commit E idx old new s ≡ (err e, t)
      → (t.tunnels ≡ s.tunnels) × IsValid t.refs
  unfolding commit
  commit-err idx old new e s t v g h =
      let new_tunnels = set s.tunnels idx new in
      let start : St E = record s { tunnels = new_tunnels } in
      let (same, w) = save-Keeps start v in
      let back = set-set s.tunnels idx new old ∙ set-get_elem? s.tunnels idx old g in
      (ground arith, subst (λ (rc : RouteRefs). IsValid rc) (ground arith) w)

  -- What `update_found` leaves: after a success the merged configuration at its place, after an
  -- error the old one.
  abbrev pub UpdateEnds :
      ℕ → TunnelConfig → TunnelConfig → List TunnelConfig → Result TunnelConfig × St E → Type 0
  UpdateEnds idx cfg updates ts (ok new, t) =
      (new ≡ apply_updates cfg updates) × (t.tunnels ≡ set ts idx new) × IsValid t.refs
  UpdateEnds idx cfg updates ts (err _, t) = (t.tunnels ≡ ts) × IsValid t.refs

  committed :
      (idx : ℕ) (cfg updates new : TunnelConfig) (s t : St E)
      → Kept E s t
      → IsValid s.refs
      → get_elem? s.tunnels idx ≡ some cfg
      → new ≡ apply_updates cfg updates
      → UpdateEnds idx cfg updates s.tunnels (commit E idx cfg new t)
  committed idx cfg updates new s t k v g same =
      let (e, w) = k v in
      let g' : get_elem? t.tunnels idx ≡ some cfg = rw e g in
      elim (Result-cases (commit E idx cfg new t)) [
        | inl (new', u, q) ↦ rw q (
            let (a, b, c) = commit-ok idx cfg new new' t u w q in (a ∙ same, b ∙ (ground arith), c))
        | inr (m, u, q) ↦ rw q (let (a, b) = commit-err idx cfg new m t u w g' q in (a ∙ e, b))
      ]

  kernel-ok :
      (cfg merged new : TunnelConfig) (s t : St E)
      → merged.enabled ≡ true
      → (preflight E cfg merged >> apply_kernel E cfg merged) s ≡ (ok new, t)
      → new ≡ merged
  kernel-ok cfg merged new s t on h = elim (Result-cases (preflight E cfg merged s)) [
    | inl (_, u, q) ↦
        apply_kernel-ok cfg merged new u t on
          (sym (>>=-ok (preflight E cfg merged) (λ _. apply_kernel E cfg merged) tt q) ∙ h)
    | inr (m, u, q) ↦
        absurd
          (ground (arith, >>=-err (preflight E cfg merged) (λ _. apply_kernel E cfg merged) m q))
  ]

  kernel-Keeps :
      (cfg merged : TunnelConfig) → Keeps E (preflight E cfg merged >> apply_kernel E cfg merged)
  kernel-Keeps cfg merged =
      >>=-Keeps E (preflight E cfg merged) (λ _. apply_kernel E cfg merged)
        (preflight-Keeps cfg merged) (λ _. apply_kernel-Keeps cfg merged)

  local_change-Keeps : (cfg merged : TunnelConfig) → Keeps E (local_change E cfg merged)
  unfolding local_change
  local_change-Keeps cfg merged s = elim (Bool-cases cfg.enabled) [
    | inl e ↦ rw (e, local_change) (kernel-Keeps cfg merged s)
    | inr e ↦ rw (e, local_change) (λ v. (refl, v))
  ]

  local_change-ok :
      (cfg merged new : TunnelConfig) (s t : St E)
      → merged.enabled ≡ cfg.enabled
      → local_change E cfg merged s ≡ (ok new, t)
      → new ≡ merged
  unfolding local_change
  local_change-ok cfg merged new s t on h = elim (Bool-cases cfg.enabled) [
    | inl e ↦ kernel-ok cfg merged new s t (on ∙ e) (rw (e, local_change) at h)
    | inr e ↦ ground arith
  ]

  changed-Ends :
      (idx : ℕ) (cfg updates : TunnelConfig) (s : St E)
      → IsValid s.refs
      → get_elem? s.tunnels idx ≡ some cfg
      → UpdateEnds idx cfg updates s.tunnels
          ((local_change E cfg (apply_updates cfg updates) >>= commit E idx cfg) s)
  unfolding apply_updates
  changed-Ends idx cfg updates s v g =
      let merged = apply_updates cfg updates in
      let change = local_change E cfg merged in
      let kept = local_change-Keeps cfg merged s in
      elim (Result-cases (change s)) [
        | inl (new, t, q) ↦ rw (>>=-ok change (commit E idx cfg) new q) (
            committed idx cfg updates new s t (rw q at kept) v g
              (local_change-ok cfg merged new s t refl q))
        | inr (m, t, q) ↦ rw (>>=-err change (commit E idx cfg) m q) ((rw q at kept) v)
      ]

  update_found-Ends :
      (idx : ℕ) (cfg updates : TunnelConfig) (s : St E)
      → IsValid s.refs
      → get_elem? s.tunnels idx ≡ some cfg
      → UpdateEnds idx cfg updates s.tunnels (update_found E idx cfg updates s)
  unfolding update_found check_address
  update_found-Ends idx cfg updates s v g =
      let merged = apply_updates cfg updates in
      let check = check_address E merged in
      let rest : ⊤ → Action (St E) TunnelConfig =
        λ _. local_change E cfg merged >>= commit E idx cfg in
      elim (Result-cases (check s)) [
        | inl (_, t, q) ↦
            let e : t ≡ s = sym (ap (λ (p : Result ⊤ × St E). p.1) q) in
            rw (>>=-ok check rest tt (q ∙ ap (λ (u : St E). (ok tt, u)) e))
              (changed-Ends idx cfg updates s v g)
        | inr (m, t, q) ↦
            let e : t ≡ s = sym (ap (λ (p : Result ⊤ × St E). p.1) q) in
            subst (λ (p : Result TunnelConfig × St E). UpdateEnds idx cfg updates s.tunnels p)
              (sym (>>=-err check rest m (q ∙ ap (λ (u : St E). (err m, u)) e))) (refl, v)
      ]

  -- `UpdateTunnel` is all or nothing on the stored configuration, for a tunnel that is found and a
  -- route counter that is well formed: when it returns a configuration, that is the old one with
  -- the update's given fields in place of its own, and it alone is replaced in the list of tunnels,
  -- at its place; when it returns an error, at whichever of its steps, the list of tunnels is as it
  -- was. The route counter stays well formed.
  pub update_tunnel-UpdateEnds :
      (id : String) (idx : ℕ) (cfg updates : TunnelConfig) (s : St E)
      → IsValid s.refs
      → find_config id s.tunnels ≡ some (idx, cfg)
      → UpdateEnds idx cfg updates s.tunnels (update_tunnel E id updates s)
  unfolding update_tunnel
  update_tunnel-UpdateEnds id idx cfg updates s v f =
      rw (f, update_tunnel)
        (update_found-Ends idx cfg updates s v (find_config-get_elem? id s.tunnels idx cfg f))
