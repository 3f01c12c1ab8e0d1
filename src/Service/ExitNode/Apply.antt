-- ===== src/Service/ExitNode/Apply.antt =====
-- `Apply` and `Reconcile` (manager/service/exitnode.go).
use vpn_pack.Common.{
  ℕ, ◌+◌, String, true, false, not, ◌&&◌, ◌||◌, List, [], ◌∷◌, ◌++◌, length, ltb, ◌==◌, string_eq,
  ⊤, text, wrap, Result, ok, err, Action, if◌then◌else◌,
}
use vpn_pack.Common.Int.{pos}
use vpn_pack.Ops.{Op, Context, noop, run}
use vpn_pack.Service.ExitNode.{
  unset, off, all, selective, unknown, ExitNodeClient, ExitNodePolicy, ExitRule, ExitEnv,
}
use vpn_pack.Service.ExitNode.Rules.{
  exit_rule_base_prio, exit_rule_max_prio, is_catch_all_prefix, family_for_addr,
  build_desired_rules, rules_match,
}
use vpn_pack.Service.ExitNode.Commands.{
  St, masq_args, cgnat_4, cgnat_6, try_run, add_rule, del_rule, add_v4_masquerade,
  add_v6_masquerade, has_masquerade, flush_conntrack, all_current_rules, cleanup_locked, persist,
}

module _ (E : ExitEnv) where
  -- The step that adds a rule.
  unfoldable pub rule_op : String → String → ℕ → String → Op (St E)
  rule_op family src prio iif = record {
    name = "add rule";
    do_step = add_rule E family src prio iif;
    undo = del_rule E family (pos prio);
  }

  unfoldable pub bridge_ops : ℕ → List String → List (Op (St E))
  bridge_ops prio [] = []
  bridge_ops prio (br ∷ brs) =
      let rest = bridge_ops (prio + 1) brs in
      rule_op "-4" "" prio br
      ∷ rule_op "-6" "" prio br
      ∷ elim (ltb exit_rule_max_prio (prio + 1)) [ true ↦ [] | false ↦ rest ]

  unfoldable pub client_ops : ℕ → List ExitNodeClient → Result (List (Op (St E)))
  client_ops prio [] = ok []
  client_ops prio (c ∷ cs) =
      let skipped = client_ops prio cs in
      let more : Result (List (Op (St E))) = elim (client_ops (prio + 1) cs) [
        | err e ↦ err e
        | ok steps ↦ ok (rule_op (family_for_addr E c.ip) c.ip prio "" ∷ steps)
      ] in
      if is_catch_all_prefix E c.ip
      then err (text "selective client is a catch-all prefix; use mode=all explicitly")
      else if family_for_addr E c.ip == ""
      then skipped
      else elim (ltb exit_rule_max_prio (prio + 1)) [
        | true ↦ ok (rule_op (family_for_addr E c.ip) c.ip prio "" ∷ [])
        | false ↦ more
      ]

  -- The steps behind the rules.
  unfoldable pub masquerade_ops : ExitNodePolicy → List (Op (St E))
  unfolding try_run
  masquerade_ops policy =
      let v4 : Op (St E) = record {
        name = "add v4 masquerade";
        do_step = add_v4_masquerade E;
        undo = λ s. (ok tt, try_run E "iptables" (masq_args "-D" cgnat_4) s);
      } in
      let v6 : Op (St E) = record {
        name = "add v6 masquerade (best-effort)";
        do_step = λ s.
            (let (r, s') = add_v6_masquerade E s in
              elim r [
                | ok installed ↦ (ok tt, record s' { v6_installed = installed })
                | err e ↦ (err e, record s' { v6_installed = false })
              ]);
        undo = λ s. (
          ok tt,
          elim s.v6_installed [
            | true ↦ try_run E "ip6tables" (masq_args "-D" cgnat_6) s
            | false ↦ s
          ],
        );
      } in
      v4 ∷ v6 ∷ noop "persist manifest" (persist E policy) ∷ []

  unfoldable pub build_apply_ops : ExitNodePolicy → St E → Result (List (Op (St E)))
  unfolding bridge_ops client_ops
  build_apply_ops policy s = elim policy.mode [
    | all ↦ elim (E.discover_bridges s.world) [
      | err e ↦ err (wrap "discover LAN bridges" e)
      | ok [] ↦ err (text "no LAN bridge interfaces found")
      | ok (br ∷ brs) ↦ ok (bridge_ops exit_rule_base_prio (br ∷ brs) ++ masquerade_ops policy)
    ]
    | selective ↦ elim policy.clients [
      | [] ↦ ok (noop "persist empty selective" (persist E policy) ∷ [])
      | c ∷ cs ↦ elim (client_ops (exit_rule_base_prio + 1) (c ∷ cs)) [
        | err e ↦ err e
        | ok steps ↦ ok (steps ++ masquerade_ops policy)
      ]
    ]
    | unset ↦ err (text "unknown exit node mode")
    | off ↦ err (text "unknown exit node mode")
    | unknown _ ↦ err (text "unknown exit node mode")
  ]

  -- `applyLocked`; the variable `v6Installed` starts as false. An error of the cleanup is logged.
  unfoldable pub apply_locked : Context → ExitNodePolicy → Action (St E) ⊤
  apply_locked ctx policy s =
      let cleaned : St E = record ((cleanup_locked E s).1) { v6_installed = false } in
      let turned_off = persist E (record { mode = off; clients = [] }) cleaned in
      let applied : Result ⊤ × St E = elim (build_apply_ops policy cleaned) [
        | err e ↦ (err e, cleaned)
        | ok steps ↦ run ctx steps cleaned
      ] in
      let (r, s') : Result ⊤ × St E = elim policy.mode [
        | unset ↦ turned_off
        | off ↦ turned_off
        | all ↦ applied
        | selective ↦ applied
        | unknown _ ↦ applied
      ] in
      (r, flush_conntrack E s')

  unfoldable pub reconcile : Context → ExitNodePolicy → Action (St E) ⊤
  reconcile ctx policy s =
      let bridges : Result (List String) = elim policy.mode [
        | all ↦ E.discover_bridges s.world
        | unset ↦ ok []
        | off ↦ ok []
        | selective ↦ ok []
        | unknown _ ↦ ok []
      ] in
      let (current, s') = all_current_rules E s in
      let check : List String → List ExitRule → Result ⊤ × St E = λ bridges current.
        (let desired = build_desired_rules E policy bridges in
          let needs_masq = ltb 0 (length desired) in
          let (has_masq, s'') = has_masquerade E s' in
          elim (rules_match current desired) [
            | false ↦ apply_locked ctx policy s'
            | true ↦ elim (needs_masq && has_masq || not needs_masq && not has_masq) [
              | true ↦ (ok tt, s'')
              | false ↦ apply_locked ctx policy s''
            ]
          ]) in
      elim bridges [
        | err e ↦ (err (wrap "discover bridges for reconcile" e), s)
        | ok bridges ↦ elim current [
          | err e ↦ (err (wrap "list current exit rules" e), s')
          | ok current ↦ check bridges current
        ]
      ]
