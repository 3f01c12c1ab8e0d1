-- ===== src/Service/RemoteExit/Confirm.antt =====
-- What `prepare` finds out, and that `enable` asks before it takes the clients' traffic over.
use mathlib.Core.Path.{subst}
use vpn_pack.Common.{
  String, true, false, ◌≡◌, refl, sym, ap, ◌∙◌, ◌⊎◌, inl, inr, Option, none, some, Error, Result,
  ok, err, ⊤, arith, Bool-cases, Option-cases, Result-cases, Answer-cases, ◌==◌, string_eq,
  if◌then◌else◌,
}
use vpn_pack.Service.Errors.{not_found_error, validation_error, conflict_error}
use vpn_pack.Domain.{ExitNodePolicy, RemoteExitNode}
use vpn_pack.Ops.{Context}
use vpn_pack.Service.ExitNode.Rules.{validate_exit_node_policy}
use vpn_pack.Service.RemoteExit.{
  PeerStatus, TsStatus, Prefs, EnableRequest, EnableResult, RemoteEnv, Store, exit_env, Service,
}
use vpn_pack.Service.RemoteExit.Status.{find_peer_by_id, or_all}
use vpn_pack.Service.RemoteExit.Enable.{
  Plan, is_all, is_selective, question, prepare, carry_out, enable, ask, local_api_error,
}

module _ (R : RemoteEnv) (req : EnableRequest) where
  -- What the request asks for.
  abbrev pub requested : RemoteExitNode
  requested = record { peer_id = req.peer_id; mode = or_all req.mode; clients = req.clients }

  -- At most Tailscale's status and then its preferences were asked for, and nothing was changed.
  pub data Looked : Store R → Store R → Type 0 where
    untouched : {s : Store R} → Looked s s
    after_status :
        {s : Store R} {r : Result TsStatus} {w : R.env.World}
        → R.status s.world ≡ (r, w)
        → Looked s (record s { world = w })
    after_prefs :
        {s : Store R} {st : TsStatus} {w v : R.env.World} {r : Result Prefs}
        → R.status s.world ≡ (ok st, w)
        → R.get_prefs w ≡ (r, v)
        → Looked s (record s { world = v })

  pub Looked-manifest : (s t : Store R) → Looked s t → t.manifest ≡ s.manifest
  Looked-manifest s t untouched = refl
  Looked-manifest s t (after_status _) = refl
  Looked-manifest s t (after_prefs _ _) = refl

  -- The preferences that the call gets to see.
  abbrev pub Fetched : Store R → Prefs → Type 0
  Fetched s prefs =
      (st : TsStatus) × (w : R.env.World) × (v : R.env.World) × (R.status s.world ≡ (ok st, w))
      × (R.get_prefs w ≡ (ok prefs, v))

  -- What is known when the checks have ended.
  abbrev pub Prepared : Store R → Result (Option String × Plan R) × Store R → Type 0
  Prepared s (err e, t) = Looked s t
  Prepared s (ok (q, p), t) =
      (Looked s t)
      × (p.new_remote ≡ requested)
      × (q ≡ question req (or_all req.mode) p.host_name p.was_advertising)
      × (p.was_advertising ≡ R.advertises_exit_node p.prefs)
      × Fetched s p.prefs

  -- The part behind the peer.
  module _ (s : Store R) (st : TsStatus) (w : R.env.World) (p : R.status s.world ≡ (ok st, w))
      (peer : PeerStatus) (q : find_peer_by_id st.peers req.peer_id ≡ some peer)
      (option : peer.exit_node_option ≡ true) where
    with_prefs :
        (prefs : Prefs) (v : R.env.World)
        → R.get_prefs w ≡ (ok prefs, v)
        → Prepared s (prepare R req s)
    unfolding prepare
    with_prefs prefs v h =
        let was = R.advertises_exit_node prefs in
        let asked = question req (or_all req.mode) peer.host_name was in
        let policy : ExitNodePolicy = record { mode = or_all req.mode; clients = req.clients } in
        let plan : Plan R = record {
          host_name = peer.host_name;
          policy = policy;
          new_remote = requested;
          prefs = prefs;
          was_advertising = was;
        } in
        let checked : Result ⊤ = elim asked [
          | some _ ↦ ok tt
          | none ↦
              if is_selective (or_all req.mode)
              then validate_exit_node_policy (exit_env R) policy
              else ok tt
        ] in
        elim (Answer-cases checked) [
          | inr (c, r) ↦
              let end : prepare R req s ≡ (err c, record s { world = v }) = ground arith in
              subst (Prepared s) (sym end) (after_prefs p h)
          | inl (_, r) ↦
              let end : prepare R req s ≡ (ok (asked, plan), record s { world = v }) =
                ground arith in
              subst (Prepared s) (sym end) (after_prefs p h, refl, refl, refl, (st, w, v, p, h))
        ]

    with_peer : Prepared s (prepare R req s)
    unfolding prepare
    with_peer = elim (Result-cases (R.get_prefs w)) [
      | inl (prefs, v, h) ↦ with_prefs prefs v h
      | inr (e, v, h) ↦
          let end : prepare R req s ≡ (err (local_api_error R e), record s { world = v }) =
            ground arith in
          subst (Prepared s) (sym end) (after_prefs p h)
    ]

  pub prepare-Prepared : (s : Store R) → Prepared s (prepare R req s)
  unfolding prepare
  prepare-Prepared s = elim (Result-cases (R.status s.world)) [
    | inr (e, w, p) ↦
        let end : prepare R req s ≡ (err (local_api_error R e), record s { world = w }) =
          ground arith in
        subst (Prepared s) (sym end) (after_status p)
    | inl (st, w, p) ↦ elim (Option-cases (find_peer_by_id st.peers req.peer_id)) [
      | inl q ↦
          let end : prepare R req s ≡ (err (not_found_error "peer "), record s { world = w }) =
            ground arith in
          subst (Prepared s) (sym end) (after_status p)
      | inr (peer, q) ↦ elim (Bool-cases peer.exit_node_option) [
        | inr none_such ↦
            let end : prepare R req s ≡ (err (validation_error "peer "), record s { world = w }) =
              ground arith in
            subst (Prepared s) (sym end) (after_status p)
        | inl option ↦ with_peer s st w p peer q option
      ]
    ]
  ]

  -- Where there is something to ask: the request is for all clients, or the device advertises
  -- itself as an exit node, by the preferences that Tailscale answers.
  abbrev pub Weighty : Store R → Type 0
  Weighty s =
      (is_all (or_all req.mode) ≡ true)
      ⊎ ((prefs : Prefs) × Fetched s prefs × (R.advertises_exit_node prefs ≡ true))

  question-asked :
      req.confirm ≡ false
      → (host : String) (s : Store R) (prefs : Prefs) → Fetched s prefs
      → Weighty s
      → (msg : String) × (question req (or_all req.mode) host (R.advertises_exit_node prefs)
          ≡ some msg)
  unfolding question
  question-asked h host s prefs (st, w, v, p, q) weighty =
      elim (Option-cases (question req (or_all req.mode) host (R.advertises_exit_node prefs))) [
        | inr (msg, r) ↦ (msg, r)
        | inl r ↦ elim weighty [
          | inl every ↦ absurd (ground arith)
          | inr (prefs', (st', w', v', p', q'), was) ↦
              let same_world : w ≡ w' = cc (p, p') in
              let same : prefs ≡ prefs' = cc (same_world, q, q') in
              let advertises : R.advertises_exit_node prefs ≡ true =
                ap R.advertises_exit_node same ∙ was in
              absurd (ground arith)
        ]
      ]

  -- A call that only asked or failed, without a change.
  abbrev pub Unchanged : Service (Store R) → Result EnableResult × Service (Store R) → Type 0
  Unchanged svc (ok r, svc') =
      (r.is_done ≡ false) × (r.confirm_required ≡ true) × (Looked svc.store svc'.store)
  Unchanged svc (err e, svc') = Looked svc.store svc'.store

  module _ (ctx inner : Context) (svc : Service (Store R)) where
    -- The courses that a call takes.
    pub data Course : Result EnableResult × Service (Store R) → Type 0 where
      refused : {e : Error} → Course (err e, svc)
      unprepared :
          {e : Error} {s : Store R}
          → prepare R req svc.store ≡ (err e, s)
          → Course (err e, record svc { store = s })
      asked :
          {msg : String} {plan : Plan R} {s : Store R}
          → prepare R req svc.store ≡ (ok (some msg, plan), s)
          → Course (ask R msg, record svc { store = s })
      carried :
          {plan : Plan R} {s t : Store R} {r : Result EnableResult}
          → prepare R req svc.store ≡ (ok (none, plan), s)
          → carry_out R ctx inner plan s ≡ (r, t)
          → Course (r, record svc { applying = false; store = t })

    along :
        {x : Result EnableResult × Service (Store R)}
        → enable R ctx inner req svc ≡ x
        → Course x
        → Course (enable R ctx inner req svc)
    along p c = subst Course (sym p) c

    pub enable-Course : Course (enable R ctx inner req svc)
    unfolding enable
    enable-Course = elim (Bool-cases (req.peer_id == "")) [
      | inl missing ↦
          let end : enable R ctx inner req svc
              ≡ (err (validation_error "peerId is required"), svc) =
            ground arith in
          along end refused
      | inr named ↦ elim (Bool-cases svc.locked) [
        | inl busy ↦
            let end : enable R ctx inner req svc
                ≡ (err (conflict_error "another exit-node operation is in progress"), svc) =
              ground arith in
            along end refused
        | inr free ↦ elim (Result-cases (prepare R req svc.store)) [
          | inr (e, s, p) ↦
              let end : enable R ctx inner req svc ≡ (err e, record svc { store = s }) =
                ground arith in
              along end (unprepared p)
          | inl ((some msg, plan), s, p) ↦
              let end : enable R ctx inner req svc ≡ (ask R msg, record svc { store = s }) =
                ground arith in
              along end (asked p)
          | inl ((none, plan), s, p) ↦
              let (r, t) = carry_out R ctx inner plan s in
              let end : enable R ctx inner req svc
                  ≡ (r, record svc { applying = false; store = t }) =
                ground arith in
              along end (carried p refl)
        ]
      ]
    ]

    Course-Unchanged :
        (x : Result EnableResult × Service (Store R))
        → req.confirm ≡ false
        → Weighty svc.store
        → Course x
        → Unchanged svc x
    Course-Unchanged x h weighty refused = untouched
    Course-Unchanged x h weighty (unprepared p) =
        subst (Prepared svc.store) p (prepare-Prepared svc.store)
    Course-Unchanged x h weighty (asked p) =
        (refl, refl, (subst (Prepared svc.store) p (prepare-Prepared svc.store)).0)
    Course-Unchanged x h weighty (carried {plan} {s} {t} {r} p q) =
        let (looked, remote, found, was, fetched) =
          subst (Prepared svc.store) p (prepare-Prepared svc.store) in
        let (msg, shown) = question-asked h plan.host_name svc.store plan.prefs fetched weighty in
        absurd (ground (arith, found, was))

    -- Without a confirmation, a request for all clients, or one to a device that advertises itself
    -- as an exit node by the preferences that the call gets, is answered with a question or an
    -- error, and changes nothing: the manifest is as it was, and nothing was done in the world but
    -- asking Tailscale for its status and then for its preferences.
    pub enable-Unchanged :
        req.confirm ≡ false → Weighty svc.store → Unchanged svc (enable R ctx inner req svc)
    enable-Unchanged h weighty =
        Course-Unchanged (enable R ctx inner req svc) h weighty enable-Course
