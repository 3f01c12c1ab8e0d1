-- ===== src/Firewall/Text.antt =====
-- What manager/firewall.go reads in the output of iptables-save and ipset.
use Prim.Native.String.{◌++◌ as ◌<>◌}
use vpn_pack.Common.{
  ℕ, suc, String, Bool, true, false, ◌&&◌, ◌||◌, Option, none, some, List, [], ◌∷◌, ltb, ◌==◌,
  string_eq, if◌then◌else◌,
}
use vpn_pack.Service.ExitNode.Rules.{strip_prefix, behind}

abbrev pub is_some : {A : Type 0} → Option A → Bool
is_some none = false
is_some (some _) = true

-- `strings.HasPrefix`
unfoldable pub has_prefix : String → String → Bool
unfolding strip_prefix
has_prefix s p = is_some (strip_prefix p s)

-- Whether the last two tokens are `-j` and the target.
unfoldable pub jump_to : List String → String → Bool
jump_to [] target = false
jump_to (a ∷ []) target = false
jump_to (a ∷ b ∷ []) target = a == "-j" && b == target
jump_to (a ∷ b ∷ c ∷ rest) target = jump_to (b ∷ c ∷ rest) target

-- `slices.Equal(lf[i:i+len(mf)], mf)`, where the slice does not end too early
unfoldable pub starts_with : List String → List String → Bool
starts_with [] lf = true
starts_with (m ∷ mf) [] = false
starts_with (m ∷ mf) (l ∷ lf) = let rest = starts_with mf lf in if l == m then rest else false

-- The loop of `lineContainsTokens`, from a place on.
unfoldable pub contains_run : List String → List String → Bool
unfolding starts_with
contains_run mf [] = starts_with mf []
contains_run mf (l ∷ lf) =
    let rest = contains_run mf lf in if starts_with mf (l ∷ lf) then true else rest

pub record OrderResult : Type 0 where
  pub has_ubios : Bool
  pub has_target : Bool
  pub target_pos : ℕ
  pub ubios_pos : ℕ

abbrev pub is_misplaced : OrderResult → Bool
is_misplaced r = r.has_ubios && (r.has_target && ltb r.target_pos r.ubios_pos)

abbrev pub nothing_found : OrderResult
nothing_found = record { has_ubios = false; has_target = false; target_pos = 0; ubios_pos = 0 }

abbrev pub chain_prefix : String → String
chain_prefix parent = "-A " <> (parent <> " ")

abbrev pub ubios_jump : String → String
ubios_jump parent = "UBIOS_" <> (parent <> "_JUMP")

module _ (fields : String → List String) where
  unfoldable pub line_jumps_to : String → String → Bool
  unfolding jump_to
  line_jumps_to line target = jump_to (fields line) target

  unfoldable pub line_contains_tokens : String → String → Bool
  unfolding contains_run
  line_contains_tokens line match_ = elim (fields match_) [
    | [] ↦ false
    | m ∷ mf ↦ contains_run (m ∷ mf) (fields line)
  ]

  -- One line of the chain at a position.
  unfoldable pub audit_line : String → String → ℕ → String → OrderResult → OrderResult
  unfolding line_jumps_to
  audit_line target ubios pos line res =
      let res' : OrderResult =
        if line_jumps_to line target
        then if res.has_target then res else record res { has_target = true; target_pos = pos }
        else res in
      if line_jumps_to line ubios
      then if res'.has_ubios then res' else record res' { has_ubios = true; ubios_pos = pos }
      else res'

  -- The loop of `auditTsChainOrder`, which has seen `pos` lines of the chain.
  unfoldable pub audit_from : String → String → String → ℕ → OrderResult → List String → OrderResult
  unfolding has_prefix audit_line
  audit_from prefix target ubios pos res [] = res
  audit_from prefix target ubios pos res (line ∷ lines) =
      let skipped = audit_from prefix target ubios pos res lines in
      let counted =
        audit_from prefix target ubios (suc pos) (audit_line target ubios (suc pos) line res)
          lines in
      if has_prefix line prefix then counted else skipped

  -- `auditTsChainOrder`, over the lines of the text
  unfoldable pub audit_chain_order : List String → String → String → OrderResult
  unfolding audit_from
  audit_chain_order lines parent target =
      audit_from (chain_prefix parent) target (ubios_jump parent) 0 nothing_found lines

  -- The loop over the lines of a chain.
  unfoldable pub any_line : String → String → List String → Bool
  unfolding has_prefix line_contains_tokens
  any_line prefix match_ [] = false
  any_line prefix match_ (line ∷ lines) =
      let rest = any_line prefix match_ lines in
      if has_prefix line prefix && line_contains_tokens line match_ then true else rest

  unfoldable pub has_chain_rule_in : String → List String → String → String → Bool
  unfolding any_line has_prefix
  has_chain_rule_in rules lines chain match_ =
      if match_ == ""
      then is_some (behind ("\n:" <> (chain <> " ")) rules)
        || has_prefix rules (":" <> (chain <> " "))
      else any_line (chain_prefix chain) match_ lines

  unfoldable pub ipset_has_member : List String → String → Bool
  ipset_has_member [] member = false
  ipset_has_member (line ∷ lines) member =
      let rest = ipset_has_member lines member in
      elim (fields line) [ [] ↦ rest | f ∷ fs ↦ if f == member then true else rest ]
