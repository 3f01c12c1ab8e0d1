-- ===== src/Wgs2s/Manager/Create/Outcome.antt =====
-- What `CreateTunnel` leaves in the configuration.
use mathlib.Core.Path.{subst}
use vpn_pack.Common.{
  ℕ, ◌≡◌, refl, sym, ◌∙◌, ap, ◌⊎◌, inl, inr, String, false, List, [], ◌∷◌, ◌++◌, ⊤, Result, ok, err,
  Action, wrapping, ◌>>=◌, contains, arith, Result-cases, Option-cases, >>=-ok, >>=-err, string_eq,
}
use vpn_pack.Wgs2s.Config.{TunnelConfig}
use vpn_pack.Wgs2s.Env.{Env, outside}
use vpn_pack.Wgs2s.RouteRefs.Laws.{IsValid}
use vpn_pack.Wgs2s.Names.{names}
use vpn_pack.Wgs2s.Names.Fresh.{next_interface_name-fresh}
use vpn_pack.Wgs2s.Keys.{generate_id}
use vpn_pack.Wgs2s.Device.{check_port_available}
use vpn_pack.Wgs2s.Tunnel.{St, bring_up, tear_down}
use vpn_pack.Wgs2s.Tunnel.Refs.{
  Keeps, wrapping-Keeps, outside-Keeps, bring_up-Keeps, tear_down-Keeps,
}
use vpn_pack.Wgs2s.Manager.{save}
use vpn_pack.Wgs2s.Manager.Update.Commit.{save-Keeps}
use vpn_pack.Wgs2s.Manager.Create.{
  missing_field, complete, drop_keys, tunnel_key, install, named, create_complete, create_tunnel,
}

module _ (E : Env) where
  -- How a creation ends, from the list of tunnels `ts`. It succeeds, and the new tunnel is the
  -- request completed with an id, an interface name that no tunnel had, and a time, and stands last.
  -- Or it fails, and the list is as it was or, where only the saving failed, has the tunnel last.
  abbrev pub CreateEnds : TunnelConfig → List TunnelConfig → Result TunnelConfig × St E → Type 0
  CreateEnds cfg ts (ok new, t) =
      ((id : String) × (name : String) × (now : ℕ) × (new ≡ complete cfg id name now)
        × (contains name (names ts) ≡ false))
      × (t.tunnels ≡ ts ++ (new ∷ []))
      × IsValid t.refs
  CreateEnds cfg ts (err _, t) =
      ((t.tunnels ≡ ts)
        ⊎ ((id : String) × (name : String) × (now : ℕ) × (t.tunnels
              ≡ ts ++ (complete cfg id name now ∷ []))
            × (contains name (names ts) ≡ false)))
      × IsValid t.refs

  -- The same for a tunnel that is complete.
  abbrev InstallEnds : TunnelConfig → List TunnelConfig → Result TunnelConfig × St E → Type 0
  InstallEnds cfg ts (ok new, t) = (new ≡ cfg) × (t.tunnels ≡ ts ++ (cfg ∷ [])) × IsValid t.refs
  InstallEnds cfg ts (err _, t) =
      ((t.tunnels ≡ ts) ⊎ (t.tunnels ≡ ts ++ (cfg ∷ []))) × IsValid t.refs

  stored-Ends :
      (cfg : TunnelConfig) (ts : List TunnelConfig) (p : Result ⊤ × St E)
      → p.1.tunnels ≡ ts ++ (cfg ∷ [])
      → IsValid p.1.refs
      → InstallEnds cfg ts (elim p.0 as (λ _. Result TunnelConfig × St E) [
        | ok _ ↦ (ok cfg, p.1)
        | err e ↦ (err e, drop_keys E cfg.id (tear_down E cfg p.1).1)
      ])
  unfolding drop_keys
  stored-Ends cfg ts (ok _, t) h v = (refl, h, v)
  stored-Ends cfg ts (err _, t) h v = let (e, w) = tear_down-Keeps E cfg t v in (inr (e ∙ h), w)

  installed-Ends :
      (cfg : TunnelConfig) (ts : List TunnelConfig) (stored : Result TunnelConfig × St E)
      (p : Result ⊤ × St E)
      → InstallEnds cfg ts stored
      → p.1.tunnels ≡ ts
      → IsValid p.1.refs
      → InstallEnds cfg ts (elim p.0 as (λ _. Result TunnelConfig × St E) [
        | ok _ ↦ stored
        | err e ↦ (err e, drop_keys E cfg.id p.1)
      ])
  unfolding drop_keys
  installed-Ends cfg ts stored (ok _, t) h e v = h
  installed-Ends cfg ts stored (err _, t) h e v = (inl e, v)

  install-Ends :
      (cfg : TunnelConfig) (key : E.Key) (s : St E)
      → IsValid s.refs
      → InstallEnds cfg s.tunnels (install E cfg key s)
  unfolding install
  install-Ends cfg key s v =
      let (e, w) = bring_up-Keeps E cfg key s v in
      let up = bring_up E cfg key s in
      let appended : St E = record (up.1) { tunnels = up.1.tunnels ++ (cfg ∷ []) } in
      let (e', w') = save-Keeps E appended w in
      let added = ap (λ (ts : List TunnelConfig). ts ++ (cfg ∷ [])) e in
      installed-Ends cfg s.tunnels _ up
        (stored-Ends cfg s.tunnels (save E appended) (e' ∙ added) w') e w

  -- A step that keeps the configuration, before the rest of a creation.
  then-Ends :
      {A : Type 0} (cfg : TunnelConfig) (m : Action (St E) A) (f : A → Action (St E) TunnelConfig)
      (s : St E)
      → IsValid s.refs
      → Keeps E m
      → ((a : A) (t : St E)
          → m s ≡ (ok a, t)
          → t.tunnels ≡ s.tunnels
          → IsValid t.refs
          → CreateEnds cfg t.tunnels (f a t))
      → CreateEnds cfg s.tunnels ((m >>= f) s)
  then-Ends {A} cfg m f s v k h =
      let (e, w) = k s v in
      elim (Result-cases (m s)) [
        | inl (a, t, q) ↦
            let same = ap (λ (p : Result A × St E). p.1.tunnels) (sym q) ∙ e in
            subst (CreateEnds cfg s.tunnels) (sym (>>=-ok m f a q)) (
              subst (λ ts. CreateEnds cfg ts (f a t)) same
                (h a t q same (subst (λ (p : Result A × St E). IsValid p.1.refs) q w)))
        | inr (m', t, q) ↦ subst (CreateEnds cfg s.tunnels) (sym (>>=-err m f m' q)) (
          inl (ap (λ (p : Result A × St E). p.1.tunnels) (sym q) ∙ e),
          subst (λ (p : Result A × St E). IsValid p.1.refs) q w,
        )
      ]

  Ends-complete :
      (cfg new : TunnelConfig) (ts : List TunnelConfig) (id name : String) (now : ℕ)
      (p : Result TunnelConfig × St E)
      → new ≡ complete cfg id name now
      → contains name (names ts) ≡ false
      → InstallEnds new ts p
      → CreateEnds cfg ts p
  Ends-complete cfg new ts id name now (ok c, t) e fresh (a, b, w) =
      ((id, name, now, a ∙ e, fresh), b ∙ ap (λ (c : TunnelConfig). ts ++ (c ∷ [])) (sym a), w)
  Ends-complete cfg new ts id name now (err m, t) e fresh (inl a, w) = (inl a, w)
  Ends-complete cfg new ts id name now (err m, t) e fresh (inr a, w) =
      (inr (id, name, now, a ∙ ap (λ (c : TunnelConfig). ts ++ (c ∷ [])) e, fresh), w)

  named-Keeps : (cfg : TunnelConfig) (id : String) → Keeps E (named E cfg id)
  unfolding named
  named-Keeps cfg id s v = (refl, v)

  named-fresh :
      (cfg new : TunnelConfig) (id : String) (s t : St E)
      → named E cfg id s ≡ (ok new, t)
      → (name : String) × (new ≡ complete cfg id name (E.now s.world))
        × (contains name (names t.tunnels) ≡ false)
  unfolding named
  named-fresh cfg new id s t q =
      let (name, found, fresh) = next_interface_name-fresh s.tunnels in
      let same : t ≡ s = ap (λ (p : Result TunnelConfig × St E). p.1) (sym q) in
      (
        name,
        ground arith,
        subst (λ (u : St E). contains name (names u.tunnels) ≡ false) (sym same) fresh,
      )

  create_complete-Ends :
      (cfg : TunnelConfig) (private_key : String) (s : St E)
      → IsValid s.refs
      → CreateEnds cfg s.tunnels (create_complete E cfg private_key s)
  unfolding create_complete
  create_complete-Ends cfg private_key s v =
      let port = check_port_available E cfg.listen_port in
      let add : TunnelConfig → E.Key → Action (St E) TunnelConfig = λ new key. install E new key in
      let keyed : String → TunnelConfig → Action (St E) TunnelConfig =
        λ id new. outside (tunnel_key E id private_key) >>= add new in
      let naming : String → Action (St E) TunnelConfig = λ id. named E cfg id >>= keyed id in
      then-Ends cfg (wrapping "port" (outside port)) (λ _. outside (generate_id E) >>= naming) s v
        (wrapping-Keeps E "port" (outside port) (outside-Keeps E port))
        (λ _ t _ _ v1.
          then-Ends cfg (outside (generate_id E)) naming t v1 (outside-Keeps E (generate_id E))
            (λ id t2 _ _ v2.
              then-Ends cfg (named E cfg id) (keyed id) t2 v2 (named-Keeps cfg id) (λ new t3 q _ v3.
                let (name, e, fresh) = named-fresh cfg new id t2 t3 q in
                then-Ends cfg (outside (tunnel_key E id private_key)) (add new) t3 v3
                  (outside-Keeps E (tunnel_key E id private_key))
                  (λ key t4 _ same v4.
                    Ends-complete cfg new t4.tunnels id name (E.now t2.world) (install E new key t4)
                      e (ap (λ (ts : List TunnelConfig). contains name (names ts)) same ∙ fresh)
                      (install-Ends new key t4 v4)))))

  -- `CreateTunnel`, for a route counter that is well formed, succeeds or fails. When it succeeds,
  -- it answers the request completed with an id, a time and an interface name that no tunnel had,
  -- and the list of tunnels has that tunnel at its end and is otherwise as it was. When it fails,
  -- the list is as it was or still has a tunnel completed in this way at its end. The route counter
  -- stays well formed.
  pub create_tunnel-CreateEnds :
      (cfg : TunnelConfig) (private_key : String) (s : St E)
      → IsValid s.refs
      → CreateEnds cfg s.tunnels (create_tunnel E cfg private_key s)
  unfolding create_tunnel
  create_tunnel-CreateEnds cfg private_key s v = elim (Option-cases (missing_field cfg)) [
    | inl e ↦ rw (e, create_tunnel) (create_complete-Ends cfg private_key s v)
    | inr (m, e) ↦ rw (e, create_tunnel) (inl refl, v)
  ]
