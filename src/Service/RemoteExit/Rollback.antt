-- ===== src/Service/RemoteExit/Rollback.antt =====
-- What the manifest says of the remote exit node after `enable` and `disable`.
use mathlib.Core.Path.{subst}
use vpn_pack.Common.{
  ◌∷◌, Error, ◌≡◌, refl, sym, ◌∙◌, ap, ◌⊎◌, inl, inr, none, some, true, false, List, [], join,
  join_all, Result, ok, err, ⊤, arith, Result-cases, Bool-cases,
}
use vpn_pack.Domain.{RemoteExitNode}
use vpn_pack.State.Manifest.Edit.{set_remote_exit_node}
use vpn_pack.State.Manifest.Read.{get_remote_exit_node}
use vpn_pack.Ops.{Op, Context, run}
use vpn_pack.Ops.Saga.{Completes, next}
use vpn_pack.Ops.First.{FirstEnds, run-FirstEnds, run-Completes}
use vpn_pack.Ops.Keeping.{Completes-keeps}
use vpn_pack.Service.RemoteExit.{EnableRequest, EnableResult, RemoteEnv, Store, Service}
use vpn_pack.Service.Errors.{conflict_error}
use vpn_pack.Service.RemoteExit.Disable.{
  err_partial_disable, no_exit_node, disable_local, clean_rules, disable,
}
use vpn_pack.Service.RemoteExit.Enable.{
  routed, Plan, persist_step, later_steps, carry_out, enable, local_api_error,
}
use vpn_pack.Service.RemoteExit.Keeping.{set_remote_exit_node_sets, remote_of, later_steps_keep}
use vpn_pack.Service.RemoteExit.Confirm.{
  requested, Prepared, Looked-manifest, prepare-Prepared, Course, refused, unprepared, asked,
  carried, enable-Course,
}

module _ (R : RemoteEnv) where
  -- The manifest after the saga for a new exit node. Where the saving of the manifest was what
  -- failed, the new one stays in memory.
  abbrev pub Carried : RemoteExitNode → Store R → Result EnableResult × Store R → Type 0
  Carried new s (ok r, t) = (r.is_done ≡ true) × (remote_of R t ≡ some new)
  Carried new s (err e, t) =
      (remote_of R t ≡ remote_of R s)
      ⊎ ((c : Error) × (set_remote_exit_node R.env (some new) s ≡ (err c, t)))

  module _ (ctx inner : Context) (p : Plan R) (s : Store R) where
    abbrev first : Op (Store R)
    first = persist_step R (get_remote_exit_node s.manifest) p

    completed :
        {t : Store R}
        → Completes (first ∷ later_steps R inner p) s t
        → remote_of R t ≡ some p.new_remote
    unfolding persist_step
    completed (next {t = u} h c) =
        Completes-keeps (remote_of R) (later_steps_keep R inner p) c
        ∙ ap (λ (q : Result ⊤ × Store R). remote_of R q.1) (sym h)
        ∙ set_remote_exit_node_sets R (some p.new_remote) s

    broken : (t : Store R) (e e' : Error) → FirstEnds first s t → Carried p.new_remote s (err e', t)
    unfolding persist_step get_remote_exit_node
    broken t e e' (inl same) = inl (ap (remote_of R) same)
    broken t e e' (inr (inl failed)) = inr failed
    broken t e e' (inr (inr (u, q))) =
        inl (ap (remote_of R) q ∙ set_remote_exit_node_sets R (remote_of R s) u)

    carry_out-Carried : Carried p.new_remote s (carry_out R ctx inner p s)
    unfolding carry_out
    carry_out-Carried = elim (Result-cases (run ctx (first ∷ later_steps R inner p) s)) [
      | inl (_, t, h) ↦
          let end : carry_out R ctx inner p s ≡ (ok (routed p.host_name), t) = ground arith in
          subst (Carried p.new_remote s) (sym end)
            (refl, completed (run-Completes ctx (first ∷ later_steps R inner p) s t h))
      | inr (e, t, h) ↦
          let end : carry_out R ctx inner p s ≡ (err (local_api_error R e), t) = ground arith in
          subst (Carried p.new_remote s) (sym end) (
            broken t e (local_api_error R e)
              (run-FirstEnds ctx first (later_steps R inner p) s t e h))
    ]

  module _ (ctx inner : Context) (req : EnableRequest) (svc : Service (Store R)) where
    -- How a call ends, by its answer.
    abbrev pub EnableEnds : Result EnableResult × Service (Store R) → Type 0
    EnableEnds (ok r, svc') =
        ((r.is_done ≡ true) × (remote_of R svc'.store ≡ some (requested R req)))
        ⊎ ((r.is_done ≡ false) × (svc'.store.manifest ≡ svc.store.manifest))
    EnableEnds (err e, svc') =
        (remote_of R svc'.store ≡ remote_of R svc.store)
        ⊎ ((s : Store R) × (c : Error) × (s.manifest ≡ svc.store.manifest)
            × (set_remote_exit_node R.env (some (requested R req)) s ≡ (err c, svc'.store)))

    Carried-ends :
        (r : Result EnableResult) (new : RemoteExitNode) (s t : Store R)
        → s.manifest ≡ svc.store.manifest
        → new ≡ requested R req
        → Carried new s (r, t)
        → EnableEnds (r, record svc { applying = false; store = t })
    Carried-ends (ok r) new s t same made (h, k) = inl (h, k ∙ ap some made)
    Carried-ends (err e) new s t same made (inl h) = inl (h ∙ ap (λ m. m.remote_exit_node) same)
    Carried-ends (err e) new s t same made (inr (c, h)) =
        inr (s, c, same, subst (λ n. set_remote_exit_node R.env (some n) s ≡ (err c, t)) made h)

    Course-ends :
        (x : Result EnableResult × Service (Store R)) → Course R req ctx inner svc x → EnableEnds x
    Course-ends x refused = inl refl
    Course-ends x (unprepared p) = inl (
        ap (λ m. m.remote_exit_node)
          (Looked-manifest R req svc.store _
            (subst (Prepared R req svc.store) p (prepare-Prepared R req svc.store))))
    Course-ends x (asked p) =
        let looked = (subst (Prepared R req svc.store) p (prepare-Prepared R req svc.store)).0 in
        inr (refl, Looked-manifest R req svc.store _ looked)
    Course-ends x (carried {plan} {s} {t} {r} p q) =
        let (looked, remote, found, was, fetched) =
          subst (Prepared R req svc.store) p (prepare-Prepared R req svc.store) in
        Carried-ends r plan.new_remote s t (Looked-manifest R req svc.store s looked) remote
          (subst (Carried plan.new_remote s) q (carry_out-Carried ctx inner plan s))

    -- After success the manifest has the requested exit node; after a question it is as it was.
    -- After an error, on whichever step or cancellation, the manifest in memory has the remote exit
    -- node from before, unless the first step could not save the manifest: then it has what that
    -- step left in memory.
    pub enable-EnableEnds : EnableEnds (enable R ctx inner req svc)
    enable-EnableEnds = Course-ends (enable R ctx inner req svc) (enable-Course R req ctx inner svc)

  -- How `disable` ends, by its answer.
  abbrev pub DisableEnds : Service (Store R) → Result ⊤ × Service (Store R) → Type 0
  DisableEnds svc (ok _, svc') = remote_of R svc'.store ≡ none
  DisableEnds svc (err e, svc') =
      (svc'.store.manifest ≡ svc.store.manifest)
      ⊎ ((remote_of R svc'.store ≡ none) × (c : Error) × (e ≡ join err_partial_disable c))

  -- The answer of the part behind the preferences.
  abbrev LocalEnds : Result ⊤ → Type 0
  LocalEnds (ok _) = Unit
  LocalEnds (err e) = (c : Error) × (e ≡ join err_partial_disable c)

  joined_ends :
      (es : List Error)
      → LocalEnds (elim es [ [] ↦ ok tt | e ∷ es ↦ err (join_all err_partial_disable (e ∷ es)) ])
  joined_ends [] = tt
  joined_ends (e ∷ es) = (_, refl)

  disable_local_ends :
      (s : Store R) → LocalEnds (disable_local R s).0 × (remote_of R (disable_local R s).1 ≡ none)
  unfolding disable_local
  disable_local_ends s = (joined_ends _, set_remote_exit_node_sets R none (clean_rules R s).1)

  ended :
      (svc : Service (Store R)) (r : Result ⊤) (t : Store R)
      → LocalEnds r
      → remote_of R t ≡ none
      → DisableEnds svc (r, record svc { applying = false; store = t })
  ended svc (ok _) t h k = k
  ended svc (err e) t (c, h) k = inr (k, c, h)

  -- After success, and after the errors that say that the exit node is off, the manifest in memory
  -- has no remote exit node; every other error has left the manifest as it was.
  pub disable-DisableEnds : (svc : Service (Store R)) → DisableEnds svc (disable R svc)
  unfolding disable
  disable-DisableEnds svc = elim (Bool-cases svc.locked) [
    | inl busy ↦
        let end : disable R svc
            ≡ (err (conflict_error "another exit-node operation is in progress"), svc) =
          ground arith in
        subst (DisableEnds svc) (sym end) (inl refl)
    | inr free ↦ elim (Result-cases (R.edit_prefs (no_exit_node R) svc.store.world)) [
      | inr (e, w, p) ↦
          let t : Store R = record svc.store { world = w } in
          let end : disable R svc
              ≡ (err (local_api_error R e), record svc { applying = false; store = t }) =
            ground arith in
          subst (DisableEnds svc) (sym end) (inl refl)
      | inl (_, w, p) ↦
          let t : Store R = record svc.store { world = w } in
          let (r, u) = disable_local R t in
          let end : disable R svc ≡ (r, record svc { applying = false; store = u }) =
            ground arith in
          let (shape, gone) = disable_local_ends t in
          subst (DisableEnds svc) (sym end) (ended svc r u shape gone)
    ]
  ]
