-- ===== src/Wgs2s/Requests/Invariant.antt =====
-- What holds in every state of the tunnel manager.
use mathlib.Core.Path.{subst}
use vpn_pack.Common.{
  ℕ, zero, suc, ◌≡◌, refl, sym, ◌∙◌, ap, inl, inr, String, Bool, true, false, not, ◌&&◌, ◌||◌, some,
  List, [], ◌∷◌, ◌++◌, ⊤, Result, ok, err, Action, contains, set, get_elem?, delete_at, arith,
  Option-cases, Bool-cases, string_eq, ◌==◌,
}
use vpn_pack.Wgs2s.Config.{TunnelConfig}
use vpn_pack.Wgs2s.Env.{Env, outside}
use vpn_pack.Wgs2s.RouteRefs.Laws.{IsValid}
use vpn_pack.Wgs2s.Names.{names}
use vpn_pack.Wgs2s.Keys.{load_private_key}
use vpn_pack.Wgs2s.Tunnel.{St, bring_up, bring_up_tunnel, tear_down}
use vpn_pack.Wgs2s.Tunnel.Refs.{Kept, Keeps, Kept-trans, >>=-Keeps, outside-Keeps, bring_up-Keeps}
use vpn_pack.Wgs2s.Manager.{find_config}
use vpn_pack.Wgs2s.Manager.Create.{complete, create_tunnel}
use vpn_pack.Wgs2s.Manager.Create.Outcome.{CreateEnds, create_tunnel-CreateEnds}
use vpn_pack.Wgs2s.Manager.Update.{apply_updates, update_tunnel}
use vpn_pack.Wgs2s.Manager.Update.Commit.{
  find_config-get_elem?, UpdateEnds, update_tunnel-UpdateEnds,
}
use vpn_pack.Wgs2s.Manager.Toggle.{
  switch, tear_down_if_enabled, delete_tunnel, enable_tunnel, disable_tunnel,
}
use vpn_pack.Wgs2s.Manager.Toggle.Outcome.{
  KernelFirst, enable_tunnel-KernelFirst, disable_tunnel-KernelFirst, delete_tunnel-KernelFirst,
}
use vpn_pack.Wgs2s.Manager.Restore.{
  restore_one, restore_from, restore_all, remove_orphan_interfaces,
}
use vpn_pack.Wgs2s.Requests.{
  Request, create, update, delete, enable, disable, restore, handle, Reachable,
}

-- No name stands twice.
unfoldable pub distinct : List String → Bool
distinct [] = true
distinct (x ∷ xs) = not (contains x xs) && distinct xs

contains-snoc :
    (x n : String) (xs : List String) → contains x (xs ++ (n ∷ [])) ≡ (contains x xs || x == n)
contains-snoc x n [] = ground arith
contains-snoc x n (y ∷ xs) = ground (arith, contains-snoc x n xs)

distinct-snoc :
    (n : String) (xs : List String)
    → contains n xs ≡ false
    → distinct xs ≡ true
    → distinct (xs ++ (n ∷ [])) ≡ true
unfolding distinct
distinct-snoc n [] h d = refl
distinct-snoc n (x ∷ xs) h d = ground (arith, contains-snoc x n xs, distinct-snoc n xs)

names-snoc :
    (ts : List TunnelConfig) (t : TunnelConfig)
    → names (ts ++ (t ∷ [])) ≡ names ts ++ (t.interface_name ∷ [])
names-snoc [] t = refl
names-snoc (u ∷ ts) t = ap (λ (ns : List String). u.interface_name ∷ ns) (names-snoc ts t)

names-set :
    (ts : List TunnelConfig) (idx : ℕ) (old new : TunnelConfig)
    → get_elem? ts idx ≡ some old
    → new.interface_name ≡ old.interface_name
    → names (set ts idx new) ≡ names ts
names-set [] idx old new h e = refl
names-set (t ∷ ts) zero old new h e = ground arith
names-set (t ∷ ts) (suc idx) old new h e =
    ap (λ (ns : List String). t.interface_name ∷ ns) (names-set ts idx old new h e)

names-switch : (idx : ℕ) (on : Bool) (ts : List TunnelConfig) → names (switch idx on ts) ≡ names ts
unfolding switch
names-switch idx on ts = elim (Option-cases (get_elem? ts idx)) [
  | inl e ↦ rw (e, switch) refl
  | inr (t, e) ↦ rw (e, switch) (names-set ts idx t (record t { enabled = on }) e refl)
]

contains-delete_at :
    (n : String) (idx : ℕ) (ts : List TunnelConfig)
    → contains n (names ts) ≡ false
    → contains n (names (delete_at idx ts)) ≡ false
contains-delete_at n idx [] h = refl
contains-delete_at n zero (t ∷ ts) h = ground arith
contains-delete_at n (suc idx) (t ∷ ts) h = ground (arith, contains-delete_at n idx ts)

distinct-delete_at :
    (idx : ℕ) (ts : List TunnelConfig)
    → distinct (names ts) ≡ true
    → distinct (names (delete_at idx ts)) ≡ true
unfolding distinct
distinct-delete_at idx [] d = refl
distinct-delete_at zero (t ∷ ts) d = ground arith
distinct-delete_at (suc idx) (t ∷ ts) d =
    ground (arith, contains-delete_at t.interface_name idx ts, distinct-delete_at idx ts)

module _ (E : Env) where
  -- The route counter is well formed, and no two tunnels have the same interface name.
  abbrev pub IsWellFormed : St E → Type 0
  IsWellFormed s = IsValid s.refs × (distinct (names s.tunnels) ≡ true)

  WellFormed-Kept : (s t : St E) → Kept E s t → IsWellFormed s → IsWellFormed t
  WellFormed-Kept s t k (v, d) =
      let (e, w) = k v in (w, ap (λ (ts : List TunnelConfig). distinct (names ts)) e ∙ d)

  CreateEnds-WellFormed :
      (cfg : TunnelConfig) (ts : List TunnelConfig) (p : Result TunnelConfig × St E)
      → distinct (names ts) ≡ true
      → CreateEnds E cfg ts p
      → IsWellFormed p.1
  unfolding complete
  CreateEnds-WellFormed cfg ts (ok new, t) d ((id, name, now, e, fresh), same, v) =
      let last =
        names-snoc ts new ∙ ap (λ (c : TunnelConfig). names ts ++ (c.interface_name ∷ [])) e in
      (
        v,
        ap (λ us. distinct (names us)) same
            ∙ ap distinct last
            ∙ distinct-snoc name (names ts) fresh d,
      )
  CreateEnds-WellFormed cfg ts (err _, t) d (inl same, v) =
      (v, ap (λ us. distinct (names us)) same ∙ d)
  CreateEnds-WellFormed cfg ts (err _, t) d (inr (id, name, now, same, fresh), v) = (
    v,
    ap (λ us. distinct (names us)) same
        ∙ ap distinct (names-snoc ts (complete cfg id name now))
        ∙ distinct-snoc name (names ts) fresh d,
  )

  UpdateEnds-WellFormed :
      (idx : ℕ) (cfg updates : TunnelConfig) (ts : List TunnelConfig)
      (p : Result TunnelConfig × St E)
      → distinct (names ts) ≡ true
      → get_elem? ts idx ≡ some cfg
      → UpdateEnds E idx cfg updates ts p
      → IsWellFormed p.1
  unfolding apply_updates
  UpdateEnds-WellFormed idx cfg updates ts (ok new, t) d g (e, same, v) = (
    v,
    ap (λ us. distinct (names us)) same
        ∙ ap distinct (names-set ts idx cfg new g (ap (λ (c : TunnelConfig). c.interface_name) e))
        ∙ d,
  )
  UpdateEnds-WellFormed idx cfg updates ts (err _, t) d g (same, v) =
      (v, ap (λ us. distinct (names us)) same ∙ d)

  KernelFirst-WellFormed :
      (kernel : Action (St E) ⊤) (change : List TunnelConfig → List TunnelConfig) (s : St E)
      (p : Result ⊤ × St E)
      → distinct (names s.tunnels) ≡ true
      → distinct (names (change s.tunnels)) ≡ true
      → KernelFirst E kernel change s p
      → IsWellFormed p.1
  KernelFirst-WellFormed kernel change s p d d' (inl (_, _, _, _, same, v)) =
      (v, ap (λ us. distinct (names us)) same ∙ d)
  KernelFirst-WellFormed kernel change s p d d' (inr (_, _, _, same, v)) =
      (v, ap (λ us. distinct (names us)) same ∙ d')

  restore_one-Keeps : (cfg : TunnelConfig) → Keeps E (restore_one E cfg)
  unfolding restore_one
  restore_one-Keeps cfg =
      >>=-Keeps E (outside (load_private_key E cfg.id)) (bring_up E cfg)
        (outside-Keeps E (load_private_key E cfg.id)) (bring_up-Keeps E cfg)

  restore_from-Kept : (cfgs : List TunnelConfig) (s : St E) → Kept E s (restore_from E cfgs s).1
  unfolding restore_from
  restore_from-Kept [] s = λ v. (refl, v)
  restore_from-Kept (cfg ∷ cfgs) s = elim (Bool-cases cfg.enabled) [
    | inl e ↦
        let up = (restore_one E cfg s).1 in
        rw (e, restore_from)
          (Kept-trans E s up (restore_from E cfgs up).1 (restore_one-Keeps cfg s)
            (restore_from-Kept cfgs up))
    | inr e ↦ rw (e, restore_from) (restore_from-Kept cfgs s)
  ]

  restore_all-Keeps : Keeps E (restore_all E)
  unfolding restore_all remove_orphan_interfaces
  restore_all-Keeps s v = restore_from-Kept s.tunnels (remove_orphan_interfaces E s) v

  update-WellFormed :
      (id : String) (updates : TunnelConfig) (s : St E)
      → IsWellFormed s
      → IsWellFormed (update_tunnel E id updates s).1
  unfolding update_tunnel
  update-WellFormed id updates s (v, d) = elim (Option-cases (find_config id s.tunnels)) [
    | inl e ↦ rw (e, update_tunnel) (v, d)
    | inr ((idx, cfg), e) ↦
        UpdateEnds-WellFormed idx cfg updates s.tunnels (update_tunnel E id updates s) d
          (find_config-get_elem? id s.tunnels idx cfg e)
          (update_tunnel-UpdateEnds E id idx cfg updates s v e)
  ]

  enable-WellFormed :
      (id : String) (s : St E) → IsWellFormed s → IsWellFormed (enable_tunnel E id s).1
  unfolding enable_tunnel
  enable-WellFormed id s (v, d) = elim (Option-cases (find_config id s.tunnels)) [
    | inl e ↦ rw (e, enable_tunnel) (v, d)
    | inr ((idx, cfg), e) ↦ elim (Bool-cases cfg.enabled) [
      | inl on ↦
          let same : enable_tunnel E id s ≡ (ok tt, s) = ground arith in
          subst (λ (p : Result ⊤ × St E). IsWellFormed p.1) (sym same) (v, d)
      | inr off ↦
          KernelFirst-WellFormed (bring_up_tunnel E cfg) (switch idx true) s (enable_tunnel E id s)
            d (ap distinct (names-switch idx true s.tunnels) ∙ d)
            (enable_tunnel-KernelFirst E id idx cfg s v e off)
    ]
  ]

  disable-WellFormed :
      (id : String) (s : St E) → IsWellFormed s → IsWellFormed (disable_tunnel E id s).1
  unfolding disable_tunnel
  disable-WellFormed id s (v, d) = elim (Option-cases (find_config id s.tunnels)) [
    | inl e ↦ rw (e, disable_tunnel) (v, d)
    | inr ((idx, cfg), e) ↦ elim (Bool-cases cfg.enabled) [
      | inr off ↦
          let same : disable_tunnel E id s ≡ (ok tt, s) = ground arith in
          subst (λ (p : Result ⊤ × St E). IsWellFormed p.1) (sym same) (v, d)
      | inl on ↦
          KernelFirst-WellFormed (tear_down E cfg) (switch idx false) s (disable_tunnel E id s) d
            (ap distinct (names-switch idx false s.tunnels) ∙ d)
            (disable_tunnel-KernelFirst E id idx cfg s v e on)
    ]
  ]

  delete-WellFormed :
      (id : String) (s : St E) → IsWellFormed s → IsWellFormed (delete_tunnel E id s).1
  unfolding delete_tunnel
  delete-WellFormed id s (v, d) = elim (Option-cases (find_config id s.tunnels)) [
    | inl e ↦ rw (e, delete_tunnel) (v, d)
    | inr ((idx, cfg), e) ↦
        KernelFirst-WellFormed (tear_down_if_enabled E cfg).do_step (delete_at idx) s
          (delete_tunnel E id s) d (distinct-delete_at idx s.tunnels d)
          (delete_tunnel-KernelFirst E id idx cfg s v e)
  ]

  -- A request, whichever it is and whatever it answers, keeps the state well formed.
  handle-WellFormed : (r : Request) (s : St E) → IsWellFormed s → IsWellFormed (handle E r s)
  unfolding handle
  handle-WellFormed (create cfg private_key) s (v, d) =
      CreateEnds-WellFormed cfg s.tunnels (create_tunnel E cfg private_key s) d
        (create_tunnel-CreateEnds E cfg private_key s v)
  handle-WellFormed (update id updates) s h = update-WellFormed id updates s h
  handle-WellFormed (delete id) s h = delete-WellFormed id s h
  handle-WellFormed (enable id) s h = enable-WellFormed id s h
  handle-WellFormed (disable id) s h = disable-WellFormed id s h
  handle-WellFormed restore s h = WellFormed-Kept s (restore_all E s).1 (restore_all-Keeps s) h

  -- In every state that requests lead to from a well-formed one, with any answers and any changes
  -- of the world between them, the route counter is well formed, with no route that has no owner
  -- and no owner twice, and no two tunnels have the same interface name.
  pub Reachable-WellFormed : (s t : St E) → IsWellFormed s → Reachable E s t → IsWellFormed t
  Reachable-WellFormed s t h Reachable.start = h
  Reachable-WellFormed s t h (Reachable.step {t = u} p r) =
      handle-WellFormed r u (Reachable-WellFormed s u h p)
  Reachable-WellFormed s t h (Reachable.outside {t = u} p w) = Reachable-WellFormed s u h p
