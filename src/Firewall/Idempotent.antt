-- ===== src/Firewall/Idempotent.antt =====
-- A port is moved by closing it and opening it again.
use vpn_pack.Common.{
  true, err, ◌⊎◌, Result-cases, String, Option, none, some, ◌≡◌, sym, ◌∙◌, ap, inl, inr, ⊤, Result,
  ok, Action, wrapping, ◌>>=◌, >>=-split, wrapping-split, ◌==◌, eq_self, string_eq, arith,
  Bool-cases,
}
use vpn_pack.Common.Int.{ℤ}
use vpn_pack.Common.Map.{lookup}
use vpn_pack.Domain.{WanPortEntry}
use vpn_pack.State.Manifest.Read.{get_wan_port_policy_id, get_wan_port_entry, get_site_id}
use vpn_pack.State.Manifest.Edit.{set_wan_port, remove_wan_port}
use vpn_pack.State.Manifest.Edits.{wan_port, no_wan_port, Store, run_edit, view-run_edit}
use vpn_pack.Firewall.{FirewallEnv}
use vpn_pack.Firewall.Order.{St, on_host}
use vpn_pack.Firewall.Probes.{integration_ready, on_manifest}
use vpn_pack.Firewall.Ports.{
  wan_port_policy_name, create_wan_port, open_wan_port, delete_wan_port, close_wan_port,
  resolve_system_zones, unless_not_found,
}

module _ (F : FirewallEnv) (marker : String) where
  abbrev entry_of : St F → Option WanPortEntry
  entry_of s = lookup marker s.manifest.wan_ports

  set_entry :
      (id name : String) (port : ℤ) (s : St F)
      → entry_of (on_manifest F (set_wan_port F.env marker id name port) s).1
        ≡ some (record { policy_id = id; policy_name = name; port = port })
  unfolding run_edit
  set_entry id name port s =
      ap (λ (t : Store). t.ports marker)
        (view-run_edit F.env (wan_port marker id name port)
          (record { manifest = s.manifest; world = s.world }))
      ∙ ground (arith, eq_self marker)

  remove_entry : (s : St F) → entry_of (on_manifest F (remove_wan_port F.env marker) s).1 ≡ none
  unfolding run_edit
  remove_entry s =
      ap (λ (t : Store). t.ports marker)
        (view-run_edit F.env (no_wan_port marker)
          (record { manifest = s.manifest; world = s.world }))
      ∙ ground (arith, eq_self marker)

  -- What a call of the host does to the state.
  on_host-split :
      {A : Type 0} (f : Action F.env.World A) (s u : St F) (r : Result A)
      → on_host F f s ≡ (r, u)
      → (w : F.env.World) × (f s.world ≡ (r, w)) × (u ≡ record s { world = w })
  on_host-split {A} f s u r h =
      let w = (f s.world).1 in
      (w, ap (λ (x : Result A × St F). (x.0, w)) h, sym (ap (λ (x : Result A × St F). x.1) h))

  -- An answer of the gateway after which the policy is gone.
  abbrev pub IsGone : Result ⊤ → Type 0
  IsGone (ok _) = Unit
  IsGone (err e) = F.is_not_found e ≡ true

  -- The port is closed: there was no policy, or the gateway was asked to delete it, after which it
  -- is gone, and the entry was taken out of the manifest.
  abbrev pub Closed : St F → St F → Type 0
  Closed s t =
      ((get_wan_port_policy_id marker s.manifest ≡ "") × (t ≡ s))
      ⊎ ((r : Result ⊤) × (w : F.env.World) × (F.delete_policy (get_site_id s.manifest)
              (get_wan_port_policy_id marker s.manifest) s.world
            ≡ (r, w))
          × IsGone r
          × (on_manifest F (remove_wan_port F.env marker) (record s { world = w }) ≡ (ok tt, t)))

  -- The port is open: the gateway was asked for the policy between the system's zones, and the
  -- manifest was given what it answered.
  abbrev pub Opened : ℤ → String → St F → St F → Type 0
  Opened port id t u =
      (ext : String) × (gate : String) × (v : St F) × (w : F.env.World) × (resolve_system_zones F
          (get_site_id t.manifest) t
        ≡ (ok (ext, gate), v))
      × (F.ensure_wan_port_policy (get_site_id t.manifest) port (wan_port_policy_name port marker)
            ext gate v.world
          ≡ (ok id, w))
      × (on_manifest F (set_wan_port F.env marker id (wan_port_policy_name port marker) port)
            (record v { world = w })
          ≡ (ok tt, u))

  unless_not_found-IsGone :
      (msg : String) (f : Action (St F) ⊤) (s u : St F)
      → unless_not_found F msg f s ≡ (ok tt, u)
      → (r : Result ⊤) × (f s ≡ (r, u)) × IsGone r
  unless_not_found-IsGone msg f s u h = elim (Result-cases (f s)) [
    | inl (_, v, p) ↦
        let same : v ≡ u = ground arith in (ok tt, p ∙ ap (λ (x : St F). (ok tt, x)) same, tt)
    | inr (e, v, p) ↦ elim (Bool-cases (F.is_not_found e)) [
      | inl gone ↦
          let same : v ≡ u = ground arith in (err e, p ∙ ap (λ (x : St F). (err e, x)) same, gone)
      | inr there ↦ absurd (ground arith)
    ]
  ]

  deleted :
      (s t : St F)
      → delete_wan_port F marker s ≡ (ok tt, t)
      → (r : Result ⊤) × (w : F.env.World) × (F.delete_policy
            (get_site_id s.manifest)
            (get_wan_port_policy_id marker s.manifest)
            s.world
          ≡ (r, w))
        × IsGone r
        × (on_manifest F (remove_wan_port F.env marker) (record s { world = w }) ≡ (ok tt, t))
  unfolding delete_wan_port
  deleted s t h =
      let policy = get_wan_port_policy_id marker s.manifest in
      let delete = on_host F (F.delete_policy (get_site_id s.manifest) policy) in
      let ask = unless_not_found F "delete WAN port policy" delete in
      let forget = on_manifest F (remove_wan_port F.env marker) in
      let (_, u, p, q) = >>=-split ask (λ _. wrapping "save manifest" forget) tt h in
      let (r, asked, gone) = unless_not_found-IsGone "delete WAN port policy" delete s u p in
      let (w, answer, same) =
        on_host-split (F.delete_policy (get_site_id s.manifest) policy) s u r asked in
      let saved = wrapping-split "save manifest" forget tt q in
      (r, w, answer, gone, ap forget (sym same) ∙ saved)

  created :
      (port : ℤ) (s t : St F)
      → create_wan_port F port marker s ≡ (ok tt, t)
      → (id : String) × Opened port id s t
  unfolding create_wan_port
  created port s t h =
      let site = get_site_id s.manifest in
      let name = wan_port_policy_name port marker in
      let zones = wrapping "resolve system zones" (resolve_system_zones F site) in
      let ask : String × String → Action (St F) String =
        λ z. on_host F (F.ensure_wan_port_policy site port name z.0 z.1) in
      let ensure : String × String → Action (St F) String =
        λ z. wrapping "ensure WAN port policy" (ask z) in
      let keep : String → Action (St F) ⊤ =
        λ id. on_manifest F (set_wan_port F.env marker id name port) in
      let ((ext, gate), v, p, q) =
        >>=-split zones (λ z. ensure z >>= λ id. wrapping "save manifest" (keep id)) tt h in
      let (id, u, p', q') =
        >>=-split (ensure (ext, gate)) (λ id. wrapping "save manifest" (keep id)) tt q in
      let resolved =
        wrapping-split "resolve system zones" (resolve_system_zones F site) (ext, gate) p in
      let ensured = wrapping-split "ensure WAN port policy" (ask (ext, gate)) id p' in
      let saved = wrapping-split "save manifest" (keep id) tt q' in
      let (w, answer, same) =
        on_host-split (F.ensure_wan_port_policy site port name ext gate) v u (ok id) ensured in
      (id, (ext, gate, v, w, resolved, answer, ap (keep id) (sym same) ∙ saved))

  -- Without an entry, or with an empty one, there is no policy to delete.
  no_policy : (s : St F) → entry_of s ≡ none → get_wan_port_policy_id marker s.manifest ≡ ""
  unfolding get_wan_port_policy_id
  no_policy s h = ground arith

  closed : (s t : St F) → close_wan_port F marker s ≡ (ok tt, t) → Closed s t
  unfolding close_wan_port
  closed s t h = elim (Bool-cases (integration_ready F s)) [
    | inr shut ↦ absurd (ground arith)
    | inl ready ↦ elim (Bool-cases (get_wan_port_policy_id marker s.manifest == "")) [
      | inl none_there ↦ inl (ground arith, ground arith)
      | inr there ↦
          let end : delete_wan_port F marker s ≡ (ok tt, t) = ground arith in inr (deleted s t end)
    ]
  ]

  Closed-free : (s t : St F) → Closed s t → get_wan_port_policy_id marker t.manifest ≡ ""
  Closed-free s t (inl (free, same)) =
      ap (λ (u : St F). get_wan_port_policy_id marker u.manifest) same ∙ free
  Closed-free s t (inr (r, w, asked, gone, saved)) = no_policy t (
      ap (λ (x : Result ⊤ × St F). entry_of x.1) (sym saved)
      ∙ remove_entry (record s { world = w }))

  opened :
      (port : ℤ) (s t : St F)
      → get_wan_port_policy_id marker s.manifest ≡ ""
      → open_wan_port F port marker s ≡ (ok tt, t)
      → create_wan_port F port marker s ≡ (ok tt, t)
  unfolding open_wan_port
  opened port s t free h = ground arith

  -- A port is moved by closing it and opening it again. Where both calls succeed, the first one had
  -- the gateway delete the policy under the marker, if there was one, and took it out of the
  -- manifest; the second one had the gateway set up a policy with the new port and its name,
  -- between the zones that were resolved; and the manifest has the identifier that the gateway
  -- answered, the name and the new port under the marker, whichever port it had before.
  pub open_wan_port-close_wan_port :
      (port : ℤ) (s t u : St F)
      → close_wan_port F marker s ≡ (ok tt, t)
      → open_wan_port F port marker t ≡ (ok tt, u)
      → (Closed s t)
        × (id : String) × (Opened port id t u)
        × (get_wan_port_entry marker u.manifest
            ≡ some (record {
              policy_id = id;
              policy_name = wan_port_policy_name port marker;
              port = port;
            }))
  unfolding get_wan_port_entry
  open_wan_port-close_wan_port port s t u h k =
      let shut = closed s t h in
      let (id, (ext, gate, v, w, resolved, ensured, saved)) =
        created port t u (opened port t u (Closed-free s t shut) k) in
      (
        shut,
        id,
        (ext, gate, v, w, resolved, ensured, saved),
        ap (λ (x : Result ⊤ × St F). entry_of x.1) (sym saved)
            ∙ set_entry id (wan_port_policy_name port marker) port (record v { world = w }),
      )
