-- ===== src/Firewall/Order.antt =====
-- The caches of manager/firewall.go, and the repair of the order of a chain.
use vpn_pack.Common.{
  ℕ, ◌-◌, String, Bool, true, false, not, ◌&&◌, List, [], ◌∷◌, ltb, ⊤, wrap, ok, err, Action, ◌==◌,
  string_eq, if◌then◌else◌,
}
use vpn_pack.Common.Int.{pos}
use vpn_pack.Common.Decimal.{itoa}
use vpn_pack.Firewall.{FirewallEnv, Firewall}
use vpn_pack.Firewall.Text.{
  is_misplaced, audit_chain_order, any_line, has_chain_rule_in, ipset_has_member,
}

abbrev pub second : ℕ
second = 1000000000

module _ (F : FirewallEnv) where
  abbrev pub St : Type 0
  St = Firewall F.env.World F.env.Time

  abbrev pub on_host : {A : Type 0} → Action F.env.World A → Action St A
  on_host f s = let (r, w) = f s.world in (r, record s { world = w })

  unfoldable pub invalidate_filter_cache : St → St
  invalidate_filter_cache s = record s { filter_cache = "" }

  -- An output that cannot be had is the empty text.
  unfoldable pub cached_filter_rules : St → String × St
  cached_filter_rules s =
      let fresh : String × St = elim (F.iptables_save s.world) [
        | err e ↦ ("", s)
        | ok text ↦ (text, record s { filter_cache = text; filter_time = F.clock s.world })
      ] in
      if not (s.filter_cache == "") && ltb (F.clock s.world - s.filter_time) second
      then (s.filter_cache, s)
      else fresh

  -- The arguments of the two calls of iptables.
  abbrev pub delete_args : String → String → List String
  delete_args parent target = "-w" ∷ "2" ∷ "-t" ∷ "filter" ∷ "-D" ∷ parent ∷ "-j" ∷ target ∷ []

  abbrev pub insert_args : String → String → ℕ → List String
  insert_args parent target n =
      "-w" ∷ "2" ∷ "-t" ∷ "filter" ∷ "-I" ∷ parent ∷ itoa (pos n) ∷ "-j" ∷ target ∷ []

  -- The repair of a chain whose target stands before the jump at a position.
  unfoldable pub repair : String → String → ℕ → Action St ⊤
  unfolding invalidate_filter_cache itoa
  repair parent target insert_at s =
      let (deleted, s') = on_host (F.iptables (delete_args parent target)) s in
      let (inserted, s'') = on_host (F.iptables (insert_args parent target insert_at)) s' in
      elim deleted [
        | err e ↦ (err (wrap "delete misplaced " e), s')
        | ok _ ↦ elim inserted [
          | err e ↦ (err (wrap "reinsert " e), s'')
          | ok _ ↦ (ok tt, invalidate_filter_cache s'')
        ]
      ]

  unfoldable pub audit_and_fix : String → String → Action St ⊤
  unfolding cached_filter_rules repair
  audit_and_fix parent target s =
      let (rules, s') = cached_filter_rules s in
      let res = audit_chain_order F.fields (F.lines rules) parent target in
      let repaired = repair parent target res.ubios_pos s' in
      if rules == ""
      then (ok tt, s')
      else elim (is_misplaced res) [ true ↦ repaired | false ↦ (ok tt, s') ]

  unfoldable pub audit_and_fix_ts_forward_order : Action St ⊤
  unfolding audit_and_fix
  audit_and_fix_ts_forward_order = audit_and_fix "FORWARD" "ts-forward"

  unfoldable pub audit_and_fix_ts_input_order : Action St ⊤
  unfolding audit_and_fix
  audit_and_fix_ts_input_order = audit_and_fix "INPUT" "ts-input"

  unfoldable pub has_chain_rule : String → String → St → Bool × St
  unfolding cached_filter_rules
  has_chain_rule chain match_ s =
      let (rules, s') = cached_filter_rules s in
      let listed : Bool = elim (F.iptables_list chain s'.world) [
        | err e ↦ false
        | ok out ↦ if match_ == "" then true else any_line F.fields "" match_ (F.lines out)
      ] in
      (
        if rules == ""
            then listed
            else has_chain_rule_in F.fields rules (F.lines rules) chain match_,
        s',
      )

  unfoldable pub has_ipset_entry : String → String → St → Bool × St
  has_ipset_entry set match_ s =
      let fresh : Bool × St = elim (F.ipset_list set s.world) [
        | err e ↦ (ipset_has_member F.fields (F.lines "") match_, s)
        | ok text ↦ (
          ipset_has_member F.fields (F.lines text) match_,
          record s { ipset_cache = text; ipset_set = set; ipset_time = F.clock s.world },
        )
      ] in
      if s.ipset_set == set
        && (not (s.ipset_cache == "") && ltb (F.clock s.world - s.ipset_time) second)
      then (ipset_has_member F.fields (F.lines s.ipset_cache) match_, s)
      else fresh
