-- ===== src/Service/ExitNode/Priorities.antt =====
-- The priorities of the rules that a policy wants.
use vpn_pack.Common.{
  ℕ, suc, ◌+◌, ◌≤◌, ◌<◌, ◌≡◌, ◌≢◌, refl, sym, ◌∙◌, ap, ◌⊎◌, inl, inr, String, true, false, List, [],
  ◌∷◌, length, ltb, All, ok, arith, Bool-cases, eq_self, ◌==◌, string_eq,
}
use vpn_pack.Common.Int.{pos}
use vpn_pack.Service.ExitNode.{
  unset, off, all, selective, unknown, ExitNodeClient, ExitNodePolicy, ExitRule, ExitEnv,
}
use vpn_pack.Service.ExitNode.Rules.{
  bridge_rules, client_rules, normalize_rule_src, family_for_addr, is_catch_all_prefix,
  build_desired_rules, check_clients, validate_exit_node_policy,
}

-- A rule whose priority is at least `low` and at most 5300.
abbrev pub Within : ℕ → ExitRule → Type 0
Within low r = (n : ℕ) × (r.priority ≡ pos n) × (low ≤ n) × (n ≤ 5300)

-- Two rules that a deletion by family and priority tells apart.
abbrev pub Apart : ExitRule → ExitRule → Type 0
Apart r q = (r.priority ≢ q.priority) ⊎ (r.family ≢ q.family)

abbrev pub Pairwise : List ExitRule → Type 0
Pairwise [] = Unit
Pairwise (r ∷ rs) = All (Apart r) rs × Pairwise rs

Within-lower :
    (low high : ℕ) (rs : List ExitRule) → low ≤ high → All (Within high) rs → All (Within low) rs
Within-lower low high [] h a = tt
Within-lower low high (r ∷ rs) h ((n, e, b, c), a) =
    ((n, e, omega (arith, h, b), c), Within-lower low high rs h a)

pos-ne : (m n : ℕ) → m < n → pos m ≢ pos n
pos-ne m n h e = absurd (ground arith)

Apart-Within :
    (prio : ℕ) (r : ExitRule) (rs : List ExitRule)
    → r.priority ≡ pos prio
    → All (Within (prio + 1)) rs
    → All (Apart r) rs
Apart-Within prio r [] e a = tt
Apart-Within prio r (q ∷ rs) e ((n, f, b, c), a) =
    (inl (λ k. pos-ne prio n (omega (arith, b)) (sym e ∙ k ∙ f)), Apart-Within prio r rs e a)

-- The rules of a list have priorities in a range and are apart.
abbrev Good : ℕ → List ExitRule → Type 0
Good low rs = All (Within low) rs × Pairwise rs

Good-stop :
    (prio : ℕ) (rs : List ExitRule)
    → (ltb 5300 (prio + 1) ≡ false → Good (prio + 1) rs)
    → Good
        (prio + 1)
        (elim (ltb 5300 (prio + 1)) as (λ _. List ExitRule) [ true ↦ [] | false ↦ rs ])
Good-stop prio rs h = elim (Bool-cases (ltb 5300 (prio + 1))) [
  | inl e ↦ rw e (tt, tt)
  | inr e ↦ rw e (h e)
]

Good-cons :
    (prio : ℕ) (r : ExitRule) (rs : List ExitRule)
    → prio ≤ 5300
    → r.priority ≡ pos prio
    → Good (prio + 1) rs
    → Good prio (r ∷ rs)
Good-cons prio r rs h e (a, p) = (
  ((prio, e, omega arith, h), Within-lower prio (prio + 1) rs (omega arith) a),
  (Apart-Within prio r rs e a, p),
)

abbrev v4_family : String
v4_family = "-4"

abbrev v6_family : String
v6_family = "-6"

families-differ : (v4_family == v6_family) ≡ false
unfolding string_eq
families-differ = refl

families-ne : v4_family ≢ v6_family
families-ne e =
    let same : true ≡ false =
      sym (eq_self v4_family) ∙ ap (λ s. v4_family == s) e ∙ families-differ in
    ground arith

bridge_rules-Good :
    (prio : ℕ) (bridges : List String) → prio ≤ 5300 → Good prio (bridge_rules prio bridges)
unfolding bridge_rules
bridge_rules-Good prio [] h = (tt, tt)
bridge_rules-Good prio (br ∷ brs) h =
    let v4 : ExitRule = record { priority = pos prio; family = "-4"; src = ""; iif = br } in
    let v6 : ExitRule = record { priority = pos prio; family = "-6"; src = ""; iif = br } in
    let rest = bridge_rules (prio + 1) brs in
    let stopped : List ExitRule = elim (ltb 5300 (prio + 1)) [ true ↦ [] | false ↦ rest ] in
    let good = Good-stop prio rest (λ e. bridge_rules-Good (prio + 1) brs (ground arith)) in
    let (a, p) = Good-cons prio v6 stopped h refl good in
    (
      ((prio, refl, omega arith, h), a),
      ((inr families-ne, Apart-Within prio v4 stopped refl good.0), p),
    )

client_rules-Good :
    (E : ExitEnv) (prio : ℕ) (clients : List ExitNodeClient)
    → prio ≤ 5300
    → Good prio (client_rules E prio clients)
unfolding client_rules
client_rules-Good E prio [] h = (tt, tt)
client_rules-Good E prio (c ∷ cs) h = elim (Bool-cases (family_for_addr E c.ip == "")) [
  | inl e ↦ rw (e, client_rules) (client_rules-Good E prio cs h)
  | inr e ↦
      let rule : ExitRule = record {
        priority = pos prio;
        family = family_for_addr E c.ip;
        src = normalize_rule_src E c.ip;
        iif = "";
      } in
      rw (e, client_rules)
        (Good-cons prio rule _ h refl (
          Good-stop prio (client_rules E (prio + 1) cs)
            (λ k. client_rules-Good E (prio + 1) cs (ground arith))))
]

-- Whatever the policy, its clients and the bridges, every rule wanted has a priority from 5280 to
-- 5300, the range that cleanup looks at, and no two of them have both the same family and the same
-- priority, by which rules are deleted.
pub build_desired_rules-Apart :
    (E : ExitEnv) (policy : ExitNodePolicy) (bridges : List String)
    → All (Within 5280) (build_desired_rules E policy bridges)
      × Pairwise (build_desired_rules E policy bridges)
unfolding build_desired_rules
build_desired_rules-Apart E policy bridges =
    elim policy.mode as (λ m. policy.mode ≡ m → Good 5280 (build_desired_rules E policy bridges)) [
      | all ↦ λ e. rw (e, build_desired_rules) (bridge_rules-Good 5280 bridges (omega arith))
      | selective ↦ λ e.
          rw (e, build_desired_rules)
            (let (a, p) = client_rules-Good E 5281 policy.clients (omega arith) in
              (Within-lower 5280 5281 (client_rules E 5281 policy.clients) (omega arith) a, p))
      | unset ↦ λ e. rw (e, build_desired_rules) (tt, tt)
      | off ↦ λ e. rw (e, build_desired_rules) (tt, tt)
      | unknown _ ↦ λ e. rw (e, build_desired_rules) (tt, tt)
    ]
      refl

client_rules-length :
    (E : ExitEnv) (prio : ℕ) (clients : List ExitNodeClient)
    → prio + length clients ≤ 5301
    → check_clients E clients ≡ ok tt
    → length (client_rules E prio clients) ≡ length clients
unfolding client_rules check_clients
client_rules-length E prio [] h k = refl
client_rules-length E prio (c ∷ cs) h k = elim (Bool-cases (family_for_addr E c.ip == "")) [
  | inl e ↦ absurd (ground arith)
  | inr e ↦ elim (Bool-cases (is_catch_all_prefix E c.ip)) [
    | inl f ↦ absurd (ground arith)
    | inr f ↦
        let kept : check_clients E cs ≡ ok tt = ground arith in
        rw (e, client_rules)
          (elim (Bool-cases (ltb 5300 (prio + 1))) [
            | inl full ↦ rw full (ap suc (last cs (ground arith)))
            | inr more ↦
                rw more (ap suc (client_rules-length E (prio + 1) cs (omega (arith, h)) kept))
          ])
  ]
]
  where
    last : (cs : List ExitNodeClient) → length cs ≤ 0 → 0 ≡ length cs
    last [] h = refl
    last (c ∷ cs) h = absurd (omega arith)

-- No client is left out: a selective policy that passes the validation gets one rule for each of
-- its clients.
pub build_desired_rules-length :
    (E : ExitEnv) (policy : ExitNodePolicy) (bridges : List String)
    → policy.mode ≡ selective
    → validate_exit_node_policy E policy ≡ ok tt
    → length (build_desired_rules E policy bridges) ≡ length policy.clients
unfolding build_desired_rules validate_exit_node_policy
build_desired_rules-length E policy bridges m v =
    let short : length policy.clients ≤ 20 = ground arith in
    let good : check_clients E policy.clients ≡ ok tt = ground arith in
    rw (m, build_desired_rules)
      (client_rules-length E 5281 policy.clients (omega (arith, short)) good)
