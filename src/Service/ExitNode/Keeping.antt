-- ===== src/Service/ExitNode/Keeping.antt =====
-- What the commands and the saving of the policy do not change, the exit node service does not
-- change.
use vpn_pack.Common.{
  ℕ, ◌+◌, String, Bool, true, false, ◌≡◌, refl, ◌∙◌, inl, inr, List, [], ◌∷◌, ◌++◌, Result, ok, err,
  ⊤, All, Result-cases, arith, ltb, text, wrap, ◌==◌, string_eq, if◌then◌else◌,
}
use vpn_pack.Common.Int.{ℤ}
use vpn_pack.Ops.{Op, Context, run}
use vpn_pack.Ops.Keeping.{Keeps, KeepsStep, append-All, run-Keeps}
use vpn_pack.Service.ExitNode.{
  ExitNodeMode, unset, off, all, selective, unknown, ExitNodeClient, ExitNodePolicy, ExitRule,
  ExitEnv,
}
use vpn_pack.Service.ExitNode.Rules.{
  exit_rule_max_prio, exit_rule_base_prio, is_catch_all_prefix, family_for_addr,
}
use vpn_pack.Service.ExitNode.Commands.{
  St, command, must_run, try_run, add_rule, del_rule, add_v4_masquerade, add_v6_masquerade,
  masq_args, cgnat_6, del_masquerade, flush_conntrack, list_rules, delete_rules, clean_family,
  cleanup_locked, cleanup, persist,
}
use vpn_pack.Service.ExitNode.Apply.{
  rule_op, bridge_ops, client_ops, masquerade_ops, build_apply_ops, apply_locked,
}

module _ (E : ExitEnv) {X : Type 0} (f : E.World → X)
    (run_kept : (name : String) (args : List String) (w : E.World) → f (E.run name args w).1 ≡ f w)
    (persist_kept : (p : ExitNodePolicy) (w : E.World)
      → f (E.set_exit_node_policy p w).1 ≡ f w) where
  abbrev seen : St E → X
  seen s = f s.world

  must_run-Keeps :
      (what name : String) (args : List String) → Keeps seen (must_run E what name args)
  unfolding must_run command
  must_run-Keeps what name args s = run_kept name args s.world

  try_run_keeps :
      (name : String) (args : List String) (s : St E) → seen (try_run E name args s) ≡ seen s
  unfolding try_run command
  try_run_keeps name args s = run_kept name args s.world

  add_rule-Keeps :
      (family src : String) (prio : ℕ) (iif : String) → Keeps seen (add_rule E family src prio iif)
  unfolding add_rule
  add_rule-Keeps family src prio iif = must_run-Keeps _ _ _

  del_rule-Keeps : (family : String) (prio : ℤ) → Keeps seen (del_rule E family prio)
  unfolding del_rule
  del_rule-Keeps family prio = must_run-Keeps _ _ _

  del_masquerade_keeps : (s : St E) → seen (del_masquerade E s) ≡ seen s
  unfolding del_masquerade
  del_masquerade_keeps s = try_run_keeps _ _ _ ∙ try_run_keeps _ _ s

  list_rules-Keeps : (family : String) → Keeps seen (list_rules E family)
  unfolding list_rules command
  list_rules-Keeps family s = run_kept _ _ s.world

  delete_rules_keeps :
      (family : String) (rules : List ExitRule) (s : St E)
      → seen (delete_rules E family rules s).1 ≡ seen s
  unfolding delete_rules
  delete_rules_keeps family [] s = refl
  delete_rules_keeps family (r ∷ rs) s =
      delete_rules_keeps family rs (del_rule E family r.priority s).1
      ∙ del_rule-Keeps family r.priority s

  clean_family_keeps : (family : String) (s : St E) → seen (clean_family E family s).1 ≡ seen s
  unfolding clean_family
  clean_family_keeps family s = elim (Result-cases (list_rules E family s)) [
    | inl (rules, t, p) ↦
        ground (arith, delete_rules_keeps family rules t, list_rules-Keeps family s)
    | inr (e, t, p) ↦ ground (arith, list_rules-Keeps family s)
  ]

  cleanup_locked-Keeps : Keeps seen (cleanup_locked E)
  unfolding cleanup_locked
  cleanup_locked-Keeps s =
      clean_family_keeps "-6" _ ∙ clean_family_keeps "-4" _ ∙ del_masquerade_keeps s

  pub cleanup-Keeps : Keeps seen (cleanup E)
  unfolding cleanup flush_conntrack
  cleanup-Keeps s = try_run_keeps _ _ _ ∙ cleanup_locked-Keeps s

  persist-Keeps : (p : ExitNodePolicy) → Keeps seen (persist E p)
  unfolding persist
  persist-Keeps p s = persist_kept p s.world

  rule_op_keeps :
      (family src : String) (prio : ℕ) (iif : String)
      → KeepsStep seen (rule_op E family src prio iif)
  unfolding rule_op
  rule_op_keeps family src prio iif = (add_rule-Keeps family src prio iif, del_rule-Keeps family _)

  bridge_ops_keeps : (prio : ℕ) (brs : List String) → All (KeepsStep seen) (bridge_ops E prio brs)
  unfolding bridge_ops
  bridge_ops_keeps prio [] = tt
  bridge_ops_keeps prio (br ∷ brs) = (
    rule_op_keeps _ _ _ _,
    (
      rule_op_keeps _ _ _ _,
      elim (ltb exit_rule_max_prio (prio + 1))
          as (λ b.
            All (KeepsStep seen) (elim b [ true ↦ [] | false ↦ bridge_ops E (prio + 1) brs ])) [
              | true ↦ tt
              | false ↦ bridge_ops_keeps (prio + 1) brs
            ],
    ),
  )

  -- The steps that a result holds.
  abbrev KeepsAll : Result (List (Op (St E))) → Type 0
  KeepsAll (ok steps) = All (KeepsStep seen) steps
  KeepsAll (err e) = Unit

  add_v6_masquerade-Keeps : Keeps seen (add_v6_masquerade E)
  unfolding add_v6_masquerade command
  add_v6_masquerade-Keeps s = run_kept _ _ s.world

  masquerade_ops_keeps : (p : ExitNodePolicy) → All (KeepsStep seen) (masquerade_ops E p)
  unfolding masquerade_ops add_v4_masquerade
  masquerade_ops_keeps p = (
    (must_run-Keeps _ _ _, try_run_keeps _ _),
    (
      (
        (λ s. elim (Result-cases (add_v6_masquerade E s)) [
          | inl (b, t, q) ↦ ground (arith, add_v6_masquerade-Keeps s)
          | inr (e, t, q) ↦ ground (arith, add_v6_masquerade-Keeps s)
        ]),
        (λ s. ground (arith, try_run_keeps "ip6tables" (masq_args "-D" cgnat_6) s)),
      ),
      ((persist-Keeps p, λ s. refl), tt),
    ),
  )

  if-KeepsAll :
      (b : Bool) (x y : Result (List (Op (St E))))
      → KeepsAll x
      → KeepsAll y
      → KeepsAll (if b then x else y)
  if-KeepsAll true x y h k = h
  if-KeepsAll false x y h k = k

  cons-KeepsAll :
      (op : Op (St E)) (r : Result (List (Op (St E))))
      → KeepsStep seen op
      → KeepsAll r
      → KeepsAll (elim r [ err e ↦ err e | ok steps ↦ ok (op ∷ steps) ])
  cons-KeepsAll op (ok steps) h k = (h, k)
  cons-KeepsAll op (err e) h k = tt

  client_ops_keeps : (prio : ℕ) (cs : List ExitNodeClient) → KeepsAll (client_ops E prio cs)
  unfolding client_ops
  client_ops_keeps prio [] = tt
  client_ops_keeps prio (c ∷ cs) =
      let op = rule_op E (family_for_addr E c.ip) c.ip prio "" in
      let one = rule_op_keeps (family_for_addr E c.ip) c.ip prio "" in
      let more : Result (List (Op (St E))) = elim (client_ops E (prio + 1) cs) [
        | err e ↦ err e
        | ok steps ↦ ok (op ∷ steps)
      ] in
      if-KeepsAll (is_catch_all_prefix E c.ip) _ _ tt (
        if-KeepsAll (family_for_addr E c.ip == "") _ _ (client_ops_keeps prio cs)
          (elim (ltb exit_rule_max_prio (prio + 1))
            as (λ b. KeepsAll (elim b [ true ↦ ok (op ∷ []) | false ↦ more ])) [
              | true ↦ (one, tt)
              | false ↦
                  cons-KeepsAll op (client_ops E (prio + 1) cs) one (client_ops_keeps (prio + 1) cs)
            ]))

  append-KeepsAll :
      (r : Result (List (Op (St E)))) (p : ExitNodePolicy)
      → KeepsAll r
      → KeepsAll (elim r [ err e ↦ err e | ok steps ↦ ok (steps ++ masquerade_ops E p) ])
  append-KeepsAll (ok steps) p h =
      append-All seen steps (masquerade_ops E p) h (masquerade_ops_keeps p)
  append-KeepsAll (err e) p h = tt

  bridges_keep :
      (r : Result (List String)) (p : ExitNodePolicy)
      → KeepsAll (elim r [
        | err e ↦ err (wrap "discover LAN bridges" e)
        | ok [] ↦ err (text "no LAN bridge interfaces found")
        | ok (br ∷ brs) ↦ ok (bridge_ops E exit_rule_base_prio (br ∷ brs) ++ masquerade_ops E p)
      ])
  bridges_keep (err e) p = tt
  bridges_keep (ok []) p = tt
  bridges_keep (ok (br ∷ brs)) p =
      append-All seen (bridge_ops E exit_rule_base_prio (br ∷ brs)) (masquerade_ops E p)
        (bridge_ops_keeps exit_rule_base_prio (br ∷ brs)) (masquerade_ops_keeps p)

  mode_keeps :
      (m : ExitNodeMode) (cs : List ExitNodeClient) (s : St E)
      → KeepsAll (build_apply_ops E (record { mode = m; clients = cs }) s)
  unfolding build_apply_ops
  mode_keeps unset cs s = tt
  mode_keeps off cs s = tt
  mode_keeps (unknown t) cs s = tt
  mode_keeps all cs s =
      bridges_keep (E.discover_bridges s.world) (record { mode = all; clients = cs })
  mode_keeps selective [] s = ((persist-Keeps _, λ t. refl), tt)
  mode_keeps selective (c ∷ cs) s =
      append-KeepsAll (client_ops E (exit_rule_base_prio + 1) (c ∷ cs))
        (record { mode = selective; clients = c ∷ cs })
        (client_ops_keeps (exit_rule_base_prio + 1) (c ∷ cs))

  -- The branch of `apply_locked` that runs the steps, and the other one.
  applied_keeps :
      (ctx : Context) (r : Result (List (Op (St E)))) (s : St E)
      → KeepsAll r
      → seen
          (elim r as (λ _. Result ⊤ × St E) [ err e ↦ (err e, s) | ok steps ↦ run ctx steps s ]).1
        ≡ seen s
  applied_keeps ctx (ok steps) s h = run-Keeps seen ctx steps h s
  applied_keeps ctx (err e) s h = refl

  mode_applied :
      (ctx : Context) (m : ExitNodeMode) (cs : List ExitNodeClient)
      → Keeps seen (apply_locked E ctx (record { mode = m; clients = cs }))
  unfolding apply_locked flush_conntrack
  mode_applied ctx unset cs s = try_run_keeps _ _ _ ∙ persist-Keeps _ _ ∙ cleanup_locked-Keeps s
  mode_applied ctx off cs s = try_run_keeps _ _ _ ∙ persist-Keeps _ _ ∙ cleanup_locked-Keeps s
  mode_applied ctx all cs s =
      try_run_keeps _ _ _ ∙ applied_keeps ctx _ _ (mode_keeps all cs _) ∙ cleanup_locked-Keeps s
  mode_applied ctx selective cs s =
      try_run_keeps _ _ _
      ∙ applied_keeps ctx _ _ (mode_keeps selective cs _)
      ∙ cleanup_locked-Keeps s
  mode_applied ctx (unknown t) cs s =
      try_run_keeps _ _ _
      ∙ applied_keeps ctx _ _ (mode_keeps (unknown t) cs _)
      ∙ cleanup_locked-Keeps s

  pub apply_locked-Keeps : (ctx : Context) (p : ExitNodePolicy) → Keeps seen (apply_locked E ctx p)
  apply_locked-Keeps ctx p = mode_applied ctx p.mode p.clients
