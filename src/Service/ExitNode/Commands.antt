-- ===== src/Service/ExitNode/Commands.antt =====
-- The commands that the service runs, and `Cleanup` (manager/service/exitnode.go).
use Prim.Native.String.{◌++◌ as ◌<>◌}
use vpn_pack.Common.{
  ℕ, String, Bool, true, false, Option, none, some, List, [], ◌∷◌, ◌++◌, ◌==◌, string_eq, ⊤, Error,
  wrap, join_all, ok, err, Action, if◌then◌else◌,
}
use vpn_pack.Common.Int.{ℤ, pos}
use vpn_pack.Service.ExitNode.{ExitNodePolicy, ExitRule, ExitEnv, ExitState}
use vpn_pack.Common.Decimal.{itoa}
use vpn_pack.Service.ExitNode.Rules.{exit_route_table, behind, parse_rules}

-- The markers of a host without IPv6.
abbrev ip_6_markers : List String
ip_6_markers =
    "executable file not found" ∷ "no such file or directory" ∷ "address family not supported"
    ∷ "protocol not supported" ∷ "module is not loaded" ∷ []

unfoldable pub contains_any : String → List String → Bool
unfolding behind
contains_any s [] = false
contains_any s (m ∷ ms) = elim (behind m s) [ some _ ↦ true | none ↦ contains_any s ms ]

-- The two lists of `masqArgs`
unfoldable pub masq_args : String → String → List String
masq_args action range =
    "-t" ∷ "nat" ∷ action ∷ "POSTROUTING" ∷ "-o" ∷ "tailscale0" ∷ "!" ∷ "-s" ∷ range ∷ "-j"
    ∷ "MASQUERADE" ∷ "-m" ∷ "comment" ∷ "--comment" ∷ "vpn-pack-exit-masq" ∷ []

abbrev pub cgnat_4 : String
cgnat_4 = "100.64.0.0/10"

abbrev pub cgnat_6 : String
cgnat_6 = "fd7a:115c:a1e0::/48"

unfoldable pub add_rule_args : String → String → ℕ → String → List String
unfolding itoa
add_rule_args family src prio iif =
    let matching : List String =
      if iif == "" then if src == "" then [] else "from" ∷ src ∷ [] else "iif" ∷ iif ∷ [] in
    (family ∷ "rule" ∷ "add" ∷ [])
    ++ (matching ++ ("lookup" ∷ itoa (pos exit_route_table) ∷ "prio" ∷ itoa (pos prio) ∷ []))

module _ (E : ExitEnv) where
  abbrev pub St : Type 0
  St = ExitState E.World

  -- A command, its output and its error.
  unfoldable pub command : String → List String → St → (String × Option Error) × St
  command name args s = let (r, w) = E.run name args s.world in (r, record s { world = w })

  -- A command whose error is the call's.
  unfoldable pub must_run : String → String → List String → Action St ⊤
  unfolding command
  must_run what name args s =
      let ((out, e), s') = command name args s in
      (elim e [ none ↦ ok tt | some e ↦ err (wrap what e) ], s')

  -- A command whose error is dropped.
  unfoldable pub try_run : String → List String → St → St
  unfolding command
  try_run name args s = (command name args s).1

  unfoldable pub add_rule : String → String → ℕ → String → Action St ⊤
  add_rule family src prio iif = must_run "ip" "ip" (add_rule_args family src prio iif)

  unfoldable pub del_rule : String → ℤ → Action St ⊤
  unfolding itoa
  del_rule family prio = must_run "ip" "ip" (family ∷ "rule" ∷ "del" ∷ "prio" ∷ itoa prio ∷ [])

  unfoldable pub is_ip_6_unavailable : Error → String → Bool
  unfolding contains_any
  is_ip_6_unavailable e out =
      contains_any (E.to_lower (E.error_text e <> (" " <> out))) ip_6_markers

  unfoldable pub add_v4_masquerade : Action St ⊤
  add_v4_masquerade = must_run "iptables masquerade add" "iptables" (masq_args "-A" cgnat_4)

  -- Whether a rule was installed. A host without IPv6 is tolerated.
  unfoldable pub add_v6_masquerade : Action St Bool
  unfolding command
  add_v6_masquerade s =
      let ((out, e), s') = command "ip6tables" (masq_args "-A" cgnat_6) s in
      (
        elim e [
          | none ↦ ok true
          | some e ↦
              if is_ip_6_unavailable e out
              then ok false
              else err (wrap "ip6tables masquerade add" e)
        ],
        s',
      )

  unfoldable pub del_masquerade : St → St
  del_masquerade s =
      try_run "ip6tables" (masq_args "-D" cgnat_6) (try_run "iptables" (masq_args "-D" cgnat_4) s)

  -- v4 must be there; v6 may be unavailable.
  unfoldable pub has_masquerade : St → Bool × St
  unfolding command
  has_masquerade s =
      let ((out4, e4), s4) = command "iptables" (masq_args "-C" cgnat_4) s in
      let ((out6, e6), s6) = command "ip6tables" (masq_args "-C" cgnat_6) s4 in
      elim e4 [
        | some _ ↦ (false, s4)
        | none ↦ (elim e6 [ none ↦ true | some e ↦ is_ip_6_unavailable e out6 ], s6)
      ]

  unfoldable pub flush_conntrack : St → St
  flush_conntrack s = try_run "conntrack" ("-F" ∷ []) s

  unfoldable pub list_rules : String → Action St (List ExitRule)
  unfolding command
  list_rules family s =
      let ((out, e), s') = command "ip" (family ∷ "rule" ∷ "show" ∷ []) s in
      (elim e [ none ↦ ok (parse_rules E out family) | some e ↦ err (wrap "ip rule show" e) ], s')

  unfoldable pub all_current_rules : Action St (List ExitRule)
  all_current_rules s =
      let (r4, s4) = list_rules "-4" s in
      let (r6, s6) = list_rules "-6" s4 in
      elim r4 [
        | err e ↦ (err e, s4)
        | ok rules4 ↦ (elim r6 [ err e ↦ err e | ok rules6 ↦ ok (rules4 ++ rules6) ], s6)
      ]

  -- Every rule of a family is deleted, with the errors on the way.
  unfoldable pub delete_rules : String → List ExitRule → St → List Error × St
  delete_rules family [] s = ([], s)
  delete_rules family (r ∷ rs) s =
      let (d, s') = del_rule family r.priority s in
      let (errs, s'') = delete_rules family rs s' in
      (elim d [ ok _ ↦ errs | err e ↦ e ∷ errs ], s'')

  unfoldable pub clean_family : String → St → List Error × St
  unfolding delete_rules
  clean_family family s =
      let (r, s') = list_rules family s in
      elim r [ err e ↦ (e ∷ [], s') | ok rules ↦ delete_rules family rules s' ]

  unfoldable pub cleanup_locked : Action St ⊤
  cleanup_locked s =
      let (errs4, s4) = clean_family "-4" (del_masquerade s) in
      let (errs6, s6) = clean_family "-6" s4 in
      (
        elim (errs4 ++ errs6) [ [] ↦ ok tt | e ∷ es ↦ err (wrap "cleanup errors" (join_all e es)) ],
        s6,
      )

  unfoldable pub cleanup : Action St ⊤
  cleanup s = let (r, s') = cleanup_locked s in (r, flush_conntrack s')

  unfoldable pub persist : ExitNodePolicy → Action St ⊤
  persist policy s =
      let (r, w) = E.set_exit_node_policy policy s.world in (r, record s { world = w })
