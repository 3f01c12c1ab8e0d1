-- ===== src/Service/RemoteExit/Sync.antt =====
-- The reconciler of manager/service/remote_exit.go comes to rest.
use mathlib.Core.Path.{subst}
use vpn_pack.Common.{
  ok, Bool-cases, [], ◌≡◌, ◌≢◌, refl, sym, ◌∙◌, ap, inl, inr, Option, none, some, false, String,
  arith, ◌==◌, string_eq,
}
use vpn_pack.Domain.{RemoteExitNode, all}
use vpn_pack.State.Manifest.Edit.{set_remote_exit_node}
use vpn_pack.State.Manifest.Read.{get_remote_exit_node}
use vpn_pack.Service.RemoteExit.{Prefs, RemoteEnv, Store, Service}
use vpn_pack.Service.RemoteExit.Disable.{clean_rules, follow, sync_manifest}
use vpn_pack.Service.RemoteExit.Keeping.{remote_of, set_remote_exit_node_sets}

-- The manifest says what Tailscale does: no exit node, or the same one.
abbrev pub Follows : String → Option RemoteExitNode → Type 0
Follows id none = id ≡ ""
Follows id (some rem) = (rem.peer_id ≡ id) × (id ≢ "")

-- The mode and the clients stay those of the node before, where there was one.
abbrev pub KeepsMode : Option RemoteExitNode → Option RemoteExitNode → Type 0
KeepsMode (some old) (some new) = (new.mode ≡ old.mode) × (new.clients ≡ old.clients)
KeepsMode (some old) none = Unit
KeepsMode none (some new) = new.mode ≡ all
KeepsMode none none = Unit

module _ (R : RemoteEnv) where
  -- What following makes of the node before.
  abbrev Followed : String → Option RemoteExitNode → Option RemoteExitNode → Type 0
  Followed id old new = Follows id new × KeepsMode old new

  landed :
      (id : String) (old new : Option RemoteExitNode) (s : Store R)
      → remote_of R s ≡ new
      → Followed id old new
      → Followed id old (remote_of R s)
  landed id old new s p h = subst (Followed id old) (sym p) h

  follow-Followed :
      (id : String) (old : Option RemoteExitNode) (s : Store R)
      → remote_of R s ≡ old
      → Followed id old (remote_of R (follow R id old s).1)
  unfolding follow
  follow-Followed id none s h = elim (Bool-cases (id == "")) [
    | inl empty ↦
        let end : follow R id none s ≡ (ok tt, s) = ground arith in
        landed id none none (follow R id none s).1 (ap (λ q. remote_of R q.1) end ∙ h)
          (ground arith, tt)
    | inr named ↦
        let new : RemoteExitNode = record { peer_id = id; mode = all; clients = [] } in
        let end : follow R id none s ≡ set_remote_exit_node R.env (some new) s = ground arith in
        landed id none (some new) (follow R id none s).1
          (ap (λ q. remote_of R q.1) end ∙ set_remote_exit_node_sets R (some new) s)
          ((refl, λ e. ground arith), refl)
  ]
  follow-Followed id (some rem) s h = elim (Bool-cases (id == "")) [
    | inl empty ↦
        let t = (clean_rules R s).1 in
        let end : follow R id (some rem) s ≡ set_remote_exit_node R.env none t = ground arith in
        landed id (some rem) none (follow R id (some rem) s).1
          (ap (λ q. remote_of R q.1) end ∙ set_remote_exit_node_sets R none t) (ground arith, tt)
    | inr named ↦ elim (Bool-cases (rem.peer_id == id)) [
      | inl same ↦
          let end : follow R id (some rem) s ≡ (ok tt, s) = ground arith in
          landed id (some rem) (some rem) (follow R id (some rem) s).1
            (ap (λ q. remote_of R q.1) end ∙ h) ((ground arith, λ e. ground arith), (refl, refl))
      | inr other ↦
          let new : RemoteExitNode = record rem { peer_id = id } in
          let end : follow R id (some rem) s ≡ set_remote_exit_node R.env (some new) s =
            ground arith in
          landed id (some rem) (some new) (follow R id (some rem) s).1
            (ap (λ q. remote_of R q.1) end ∙ set_remote_exit_node_sets R (some new) s)
            ((refl, λ e. ground arith), (refl, refl))
    ]
  ]

  follow-idle :
      (id : String) (old : Option RemoteExitNode) (s : Store R)
      → Follows id old
      → follow R id old s ≡ (ok tt, s)
  unfolding follow
  follow-idle id none s h = ground arith
  follow-idle id (some rem) s (h, k) = ground arith

  sync_manifest-idle :
      (svc : Service (Store R)) (prefs : Prefs) (v : R.env.World)
      → svc.applying ≡ false
      → R.get_prefs svc.store.world ≡ (ok prefs, v)
      → Follows prefs.exit_node_id (remote_of R svc.store)
      → sync_manifest R svc ≡ (ok tt, record svc { store = record svc.store { world = v } })
  unfolding sync_manifest get_remote_exit_node
  sync_manifest-idle svc prefs v idle read h =
      let u : Store R = record svc.store { world = v } in
      let rest = follow-idle prefs.exit_node_id (remote_of R svc.store) u h in ground arith

  sync_manifest-applying :
      (svc : Service (Store R)) → (sync_manifest R svc).1.applying ≡ svc.applying
  unfolding sync_manifest
  sync_manifest-applying svc = elim (Bool-cases svc.applying) [
    | inl on ↦ ground arith
    | inr shut ↦ ground arith
  ]

  -- Where no other operation is in flight and Tailscale's preferences can be read, the manifest in
  -- memory says afterwards what they say, whether or not it could be saved, and a known mode and
  -- known clients stay. A second synchronisation that reads the same exit node changes nothing but
  -- the world by that reading.
  pub sync_manifest-settles :
      (svc : Service (Store R)) (prefs again : Prefs) (w v : R.env.World)
      → svc.applying ≡ false
      → R.get_prefs svc.store.world ≡ (ok prefs, w)
      → R.get_prefs (sync_manifest R svc).1.store.world ≡ (ok again, v)
      → again.exit_node_id ≡ prefs.exit_node_id
      → Follows prefs.exit_node_id (remote_of R (sync_manifest R svc).1.store)
        × (KeepsMode (remote_of R svc.store) (remote_of R (sync_manifest R svc).1.store)
            × (sync_manifest R (sync_manifest R svc).1 ≡ (
              ok tt,
              record ((sync_manifest R svc).1) {
                store = record ((sync_manifest R svc).1.store) { world = v };
              },
            )))
  unfolding sync_manifest get_remote_exit_node
  sync_manifest-settles svc prefs again w v idle read read' equal =
      let id = prefs.exit_node_id in
      let t : Store R = record svc.store { world = w } in
      let old = remote_of R svc.store in
      let svc' = (sync_manifest R svc).1 in
      let end : svc'.store ≡ (follow R id old t).1 = ground arith in
      let (same, modes) =
        subst (λ u. Followed id old (remote_of R u)) (sym end) (follow-Followed id old t refl) in
      (
        same,
        (
          modes,
          sync_manifest-idle svc' again v (sync_manifest-applying svc ∙ idle) read'
              (subst (λ j. Follows j (remote_of R svc'.store)) (sym equal) same),
        ),
      )
