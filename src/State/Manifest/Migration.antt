-- ===== src/State/Manifest/Migration.antt =====
-- The migration of the old exit node policy.
use mathlib.Core.Path.{subst}
use vpn_pack.Common.{
  Bool, true, false, ◌||◌, none, some, ◌≡◌, refl, ap, sym, ◌∙◌, Bool-cases, Option-cases, ◌⊎◌, inl,
  inr, arith,
}
use vpn_pack.Domain.{ExitNodePolicy, RemoteExitNode}
use vpn_pack.State.Manifest.{Manifest, ManifestEnv}
use vpn_pack.State.Manifest.Edit.{St, change, is_on, migrate_exit_node}
use vpn_pack.State.Manifest.Edits.{Store, view, view-change}

-- What the migration makes of a store: the old policy goes, and the advertising stays on where the
-- policy or Tailscale had it on. A store that has the new settings is left alone.
abbrev pub migrated : Bool → Store → Store
migrated ts t = elim t.advertising [
  | true ↦ t
  | false ↦ elim t.remote [
    | some _ ↦ t
    | none ↦ elim t.exit_policy [
      | none ↦ record t { advertising = ts }
      | some p ↦ record t { exit_policy = none; advertising = is_on p.mode || ts }
    ]
  ]
]

migrated_on : (ts : Bool) (t : Store) → t.advertising ≡ true → migrated ts t ≡ t
migrated_on ts t on = ground arith

migrated_remote :
    (ts : Bool) {r : RemoteExitNode} (t : Store) → t.remote ≡ some r → migrated ts t ≡ t
migrated_remote ts t p = ground arith

-- A store without the new settings.
abbrev Old : Store → Type 0
Old t = (t.advertising ≡ false) × (t.remote ≡ none)

migrated-none :
    (ts : Bool) (t : Store)
    → Old t
    → t.exit_policy ≡ none
    → ts ≡ true
    → migrated ts t ≡ record t { advertising = true }
migrated-none ts t h p on = ground arith

migrated-some :
    (ts : Bool) (t : Store) {q : ExitNodePolicy}
    → Old t
    → t.exit_policy ≡ some q
    → migrated ts t ≡ record t { exit_policy = none; advertising = is_on q.mode || ts }
migrated-some ts t h p = ground arith

module _ (E : ManifestEnv) (ts : Bool) where
  -- A manifest that has the new settings, or nothing to migrate.
  idle_on :
      (s : St E) → s.manifest.advertise_exit_node_enabled ≡ true → migrate_exit_node E ts s ≡ s
  unfolding migrate_exit_node
  idle_on s on = ground arith

  idle_remote :
      {r : RemoteExitNode} (s : St E)
      → s.manifest.remote_exit_node ≡ some r
      → migrate_exit_node E ts s ≡ s
  unfolding migrate_exit_node
  idle_remote s p = ground arith

  idle_off :
      (s : St E) → s.manifest.exit_node_policy ≡ none → ts ≡ false → migrate_exit_node E ts s ≡ s
  unfolding migrate_exit_node
  idle_off s p off = ground arith

  -- A manifest that a second migration leaves alone.
  abbrev Settled : St E → Type 0
  Settled t =
      (t.manifest.advertise_exit_node_enabled ≡ true)
      ⊎ ((t.manifest.exit_node_policy ≡ none) × (ts ≡ false))

  Settled-idle : (t : St E) → Settled t → migrate_exit_node E ts t ≡ t
  Settled-idle t (inl on) = idle_on t on
  Settled-idle t (inr (p, off)) = idle_off t p off

  -- What one migration does.
  abbrev Ends : St E → St E → Type 0
  Ends s t = (view t.manifest ≡ migrated ts (view s.manifest)) × Settled t

  module _ (s : St E) (old : Old (view s.manifest)) where
    enabled :
        s.manifest.exit_node_policy ≡ none
        → ts ≡ true
        → Ends s (change E (λ m. record m { advertise_exit_node_enabled = true }) s).1
    enabled p on =
        let seen = view-change E (λ m. record m { advertise_exit_node_enabled = true }) s in
        (
          seen ∙ sym (migrated-none ts (view s.manifest) old p on),
          inl (ap (λ (t : Store). t.advertising) seen),
        )

    abbrev dropping : Bool → Manifest E.Time → Manifest E.Time
    dropping on m = record m {
      advertise_exit_node_enabled = on || m.advertise_exit_node_enabled;
      exit_node_policy = none;
    }

    or_old : (on : Bool) → (on || s.manifest.advertise_exit_node_enabled) ≡ on
    or_old true = refl
    or_old false = old.0

    dropped :
        {q : ExitNodePolicy}
        → s.manifest.exit_node_policy ≡ some q
        → Ends s (change E (dropping (is_on q.mode || ts)) s).1
    dropped {q} p =
        let on = is_on q.mode || ts in
        let t = (change E (dropping on) s).1 in
        let seen = view-change E (dropping on) s in
        let shown : t.manifest.advertise_exit_node_enabled ≡ on =
          ap (λ (u : Store). u.advertising) seen ∙ or_old on in
        (
          seen
              ∙ (λ i. record (view s.manifest) { exit_policy = none; advertising = or_old on i })
              ∙ sym (migrated-some ts (view s.manifest) old p),
          elim (Bool-cases ts) [
            | inl on_ts ↦ inl (shown ∙ ground arith)
            | inr off ↦ inr (ap (λ (u : Store). u.exit_policy) seen, off)
          ],
        )

    migrates_old : Ends s (migrate_exit_node E ts s)
    unfolding migrate_exit_node
    migrates_old = elim (Option-cases s.manifest.exit_node_policy) [
      | inr (q, p) ↦
          let end : migrate_exit_node E ts s ≡ (change E (dropping (is_on q.mode || ts)) s).1 =
            ground arith in
          subst (Ends s) (sym end) (dropped p)
      | inl p ↦ elim (Bool-cases ts) [
        | inl on ↦
            let end : migrate_exit_node E ts s
                ≡ (change E (λ m. record m { advertise_exit_node_enabled = true }) s).1 =
              ground arith in
            subst (Ends s) (sym end) (enabled p on)
        | inr off ↦ subst (Ends s) (sym (idle_off s p off)) (ground arith, inr (p, off))
      ]
    ]

  -- The migration does to what can be asked of the manifest what `migrated` says, and a second one
  -- with the same answer of Tailscale does nothing at all, whether or not the first could save.
  pub migrate_exit_node-twice :
      (s : St E)
      → (view (migrate_exit_node E ts s).manifest ≡ migrated ts (view s.manifest))
        × (migrate_exit_node E ts (migrate_exit_node E ts s) ≡ migrate_exit_node E ts s)
  migrate_exit_node-twice s = elim (Bool-cases s.manifest.advertise_exit_node_enabled) [
    | inl on ↦
        let same = idle_on s on in
        (
          ap (λ (t : St E). view t.manifest) same ∙ sym (migrated_on ts (view s.manifest) on),
          ap (migrate_exit_node E ts) same,
        )
    | inr shut ↦ elim (Option-cases s.manifest.remote_exit_node) [
      | inr (r, p) ↦
          let same = idle_remote s p in
          (
            ap (λ (t : St E). view t.manifest) same ∙ sym (migrated_remote ts (view s.manifest) p),
            ap (migrate_exit_node E ts) same,
          )
      | inl p ↦
          let (seen, settled) = migrates_old s (shut, p) in
          (seen, Settled-idle (migrate_exit_node E ts s) settled)
    ]
  ]
