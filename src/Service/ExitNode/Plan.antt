-- ===== src/Service/ExitNode/Plan.antt =====
-- The steps of `Apply` against the rules that `Reconcile` wants.
use vpn_pack.Common.{
  ℕ, ◌+◌, ◌≡◌, refl, ◌∙◌, ap, inl, inr, String, List, [], ◌∷◌, ◌++◌, map, ltb, ok, err, arith,
  Bool-cases, ◌==◌, string_eq,
}
use vpn_pack.Common.Int.{ℤ, pos, negsuc}
use vpn_pack.Ops.{Op}
use vpn_pack.Service.ExitNode.{all, selective, ExitNodeClient, ExitNodePolicy, ExitRule, ExitEnv}
use vpn_pack.Service.ExitNode.Rules.{
  bridge_rules, client_rules, family_for_addr, normalize_rule_src, is_catch_all_prefix,
  build_desired_rules,
}
use vpn_pack.Service.ExitNode.Commands.{St}
use vpn_pack.Service.ExitNode.Apply.{
  rule_op, bridge_ops, client_ops, masquerade_ops, build_apply_ops,
}

module _ (E : ExitEnv) where
  abbrev natural : ℤ → ℕ
  natural (pos n) = n
  natural (negsuc _) = 0

  -- The step that adds a rule, and the rule with its source as the kernel shows it.
  abbrev pub step_of : ExitRule → Op (St E)
  step_of r = rule_op E r.family r.src (natural r.priority) r.iif

  bridge_ops-step_of :
      (prio : ℕ) (bridges : List String)
      → bridge_ops E prio bridges ≡ map step_of (bridge_rules prio bridges)
  unfolding bridge_ops bridge_rules
  bridge_ops-step_of prio [] = refl
  bridge_ops-step_of prio (br ∷ brs) = elim (Bool-cases (ltb 5300 (prio + 1))) [
    | inl e ↦ rw e refl
    | inr e ↦ rw (e, bridge_ops-step_of (prio + 1) brs) refl
  ]

  -- When the policy takes all clients and the steps of `Apply` can be built, they are: add exactly
  -- the rules that `Reconcile` wants for the bridges that are there, in their order, and then the
  -- masquerading and the persisting.
  pub build_apply_ops-all :
      (policy : ExitNodePolicy) (s : St E) (bridges : List String) (steps : List (Op (St E)))
      → policy.mode ≡ all
      → E.discover_bridges s.world ≡ ok bridges
      → build_apply_ops E policy s ≡ ok steps
      → steps ≡ map step_of (build_desired_rules E policy bridges) ++ masquerade_ops E policy
  unfolding build_apply_ops build_desired_rules
  build_apply_ops-all policy s [] steps m d b = absurd (ground arith)
  build_apply_ops-all policy s (br ∷ brs) steps m d b =
      ground (arith, bridge_ops-step_of 5280 (br ∷ brs))

  -- A rule with its source as the kernel shows it.
  abbrev pub normalized : ExitRule → ExitRule
  normalized r = record r { src = normalize_rule_src E r.src }

  -- The steps add rules that are, with their sources as the kernel shows them, those wanted.
  abbrev pub Adds : List (Op (St E)) → List ExitRule → Type 0
  Adds steps wanted =
      (rules : List ExitRule) × (steps ≡ map step_of rules) × (map normalized rules ≡ wanted)

  client_ops-Adds :
      (prio : ℕ) (clients : List ExitNodeClient) (steps : List (Op (St E)))
      → client_ops E prio clients ≡ ok steps
      → Adds steps (client_rules E prio clients)
  unfolding client_ops client_rules
  client_ops-Adds prio [] steps h = ([], ground arith, refl)
  client_ops-Adds prio (c ∷ cs) steps h =
      let rule : ExitRule = record {
        priority = pos prio;
        family = family_for_addr E c.ip;
        src = c.ip;
        iif = "";
      } in
      elim (Bool-cases (is_catch_all_prefix E c.ip)) [
        | inl f ↦ absurd (ground arith)
        | inr f ↦ elim (Bool-cases (family_for_addr E c.ip == "")) [
          | inl e ↦ rw (e, client_rules) (client_ops-Adds prio cs steps (ground arith))
          | inr e ↦ elim (Bool-cases (ltb 5300 (prio + 1))) [
            | inl full ↦ rw (e, full, client_rules) (rule ∷ [], ground arith, refl)
            | inr more ↦
                elim (client_ops E (prio + 1) cs)
                    as (λ r.
                      client_ops E (prio + 1) cs ≡ r → Adds steps (client_rules E prio (c ∷ cs))) [
                        | err m ↦ λ q. absurd (ground arith)
                        | ok later ↦ λ q.
                            let (rules, k, w) = client_ops-Adds (prio + 1) cs later q in
                            let first : steps ≡ step_of rule ∷ later = ground arith in
                            rw (e, more, client_rules)
                              (
                                rule ∷ rules,
                                first ∙ ap (λ ops. step_of rule ∷ ops) k,
                                ap (λ rs. normalized rule ∷ rs) w,
                              )
                      ]
                  refl
          ]
        ]
      ]

  -- When the policy selects clients, at least one, and the steps of `Apply` can be built, they are:
  -- add rules that are, with their sources as the kernel shows them, exactly the rules that
  -- `Reconcile` wants, in their order, and then the masquerading and the persisting.
  pub build_apply_ops-selective :
      (policy : ExitNodePolicy) (c : ExitNodeClient) (cs : List ExitNodeClient) (s : St E)
      (bridges : List String) (steps : List (Op (St E)))
      → policy.mode ≡ selective
      → policy.clients ≡ c ∷ cs
      → build_apply_ops E policy s ≡ ok steps
      → (adding : List (Op (St E))) × (steps ≡ adding ++ masquerade_ops E policy)
        × Adds adding (build_desired_rules E policy bridges)
  unfolding build_apply_ops build_desired_rules
  build_apply_ops-selective policy c cs s bridges steps m l b =
      elim (client_ops E 5281 (c ∷ cs))
          as (λ r.
            client_ops E 5281 (c ∷ cs) ≡ r
            → (adding : List (Op (St E))) × (steps ≡ adding ++ masquerade_ops E policy)
              × Adds adding (build_desired_rules E policy bridges)) [
                | err e ↦ λ q. absurd (ground arith)
                | ok adding ↦ λ q. (
                  adding,
                  ground arith,
                  rw (m, l, build_desired_rules) (client_ops-Adds 5281 (c ∷ cs) adding q),
                )
              ]
        refl
