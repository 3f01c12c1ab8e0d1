-- ===== src/Service/ExitNode/Rules.antt =====
-- The rules that a policy wants, and the rules that are there (manager/service/exitnode.go).
use Prim.Native.String.{◌++◌ as ◌<>◌}
use vpn_pack.Common.{
  ℕ, zero, suc, ◌+◌, String, Bool, true, false, ◌&&◌, ◌||◌, Option, none, some, List, [], ◌∷◌, map,
  length, ltb, leb, contains, ◌==◌, string_eq, nat_eq, ⊤, text, Result, ok, err, if◌then◌else◌,
}
use vpn_pack.Common.Int.{ℤ, pos, negsuc}
use vpn_pack.Common.Decimal.{itoa}
use vpn_pack.Service.ExitNode.{
  unset, off, all, selective, unknown, ExitNodeClient, ExitNodePolicy, ExitRule, ExitEnv,
}

abbrev pub exit_route_table : ℕ
exit_route_table = 53

abbrev pub exit_rule_base_prio : ℕ
exit_rule_base_prio = 5280

abbrev pub exit_rule_max_prio : ℕ
exit_rule_max_prio = 5300

abbrev pub max_exit_clients : ℕ
max_exit_clients = 20

-- The rest of a text behind a first part.
unfoldable pub strip_prefix : String → String → Option String
strip_prefix String.[] s = some s
strip_prefix (String.◌∷◌ c p) String.[] = none
strip_prefix (String.◌∷◌ c p) (String.◌∷◌ d s) =
    let rest = strip_prefix p s in if String.◌∷◌ c "" == String.◌∷◌ d "" then rest else none

-- The rest of a text behind the first place where `p` stands: `line[strings.Index(line, p)+len(p):]`.
unfoldable pub behind : String → String → Option String
unfolding strip_prefix
behind p String.[] = strip_prefix p ""
behind p (String.◌∷◌ c s) =
    let later = behind p s in
    elim (strip_prefix p (String.◌∷◌ c s)) [ some rest ↦ some rest | none ↦ later ]

-- The text before the first byte `c`: `line[:strings.IndexByte(line, c)]`.
unfoldable pub before_byte : String → String → Option String
before_byte c String.[] = none
before_byte c (String.◌∷◌ d s) =
    let rest = before_byte c s in
    if String.◌∷◌ d "" == c
    then some ""
    else elim rest [ none ↦ none | some t ↦ some (String.◌∷◌ d t) ]

unfoldable pub parse_rule_from : String → String
unfolding behind before_byte
parse_rule_from line = elim (behind "from " line) [
  | none ↦ ""
  | some rest ↦ elim (before_byte " " rest) [
    | none ↦ rest
    | some src ↦ if src == "all" then "" else src
  ]
]

unfoldable pub parse_rule_iif : String → String
unfolding behind before_byte
parse_rule_iif line = elim (behind "iif " line) [
  | none ↦ ""
  | some rest ↦ elim (before_byte " " rest) [ none ↦ rest | some iif ↦ iif ]
]

abbrev pub in_range : ℤ → Bool
in_range (pos n) = leb exit_rule_base_prio n && leb n exit_rule_max_prio
in_range (negsuc _) = false

unfoldable pub rule_key : ExitRule → String
rule_key r = itoa r.priority <> ("/" <> (r.family <> ("/" <> (r.src <> ("/" <> r.iif)))))

-- The loop over the desired rules; the map is the list of the current rules' keys.
unfoldable pub all_in : List String → List ExitRule → Bool
all_in keys [] = true
all_in keys (r ∷ rs) = contains (rule_key r) keys && all_in keys rs

unfoldable pub rules_match : List ExitRule → List ExitRule → Bool
unfolding all_in
rules_match current desired =
    if length current == length desired then all_in (map rule_key current) desired else false

-- The rules of the bridges from a priority on: two for each bridge, until the priorities end.
unfoldable pub bridge_rules : ℕ → List String → List ExitRule
bridge_rules prio [] = []
bridge_rules prio (br ∷ brs) =
    let rest = bridge_rules (prio + 1) brs in
    record { priority = pos prio; family = "-4"; src = ""; iif = br }
    ∷ record { priority = pos prio; family = "-6"; src = ""; iif = br }
    ∷ elim (ltb exit_rule_max_prio (prio + 1)) [ true ↦ [] | false ↦ rest ]

module _ (E : ExitEnv) where
  -- A prefix that takes every address.
  unfoldable pub is_catch_all_prefix : String → Bool
  is_catch_all_prefix s = elim (E.parse_prefix s) [
    | none ↦ false
    | some p ↦ elim p.bits [ pos zero ↦ true | pos (suc _) ↦ false | negsuc _ ↦ false ]
  ]

  abbrev pub family_of : Bool → String
  family_of true = "-4"
  family_of false = "-6"

  unfoldable pub family_for_addr : String → String
  family_for_addr s = elim (E.parse_prefix s) [
    | some p ↦ family_of p.is_4
    | none ↦ elim (E.parse_addr s) [ some is_4 ↦ family_of is_4 | none ↦ "" ]
  ]

  abbrev pub has_bits : ℕ → ℤ → Bool
  has_bits n (pos m) = n == m
  has_bits n (negsuc _) = false

  unfoldable pub normalize_rule_src : String → String
  normalize_rule_src s = elim (E.parse_prefix s) [
    | none ↦ s
    | some p ↦
        if p.is_4 && has_bits 32 p.bits || p.is_6 && has_bits 128 p.bits then p.addr_string else s
  ]

  unfoldable pub parse_rule_priority : String → Option ℤ
  unfolding before_byte
  parse_rule_priority line = elim (before_byte ":" line) [
    | none ↦ none
    | some String.[] ↦ none
    | some (String.◌∷◌ c s) ↦ E.atoi (E.trim_space (String.◌∷◌ c s))
  ]

  -- One line of `ip rule show`.
  unfoldable pub parse_line : String → String → Option ExitRule
  unfolding behind
  parse_line family line = elim (behind ("lookup " <> itoa (pos exit_route_table)) line) [
    | none ↦ none
    | some _ ↦ elim (parse_rule_priority line) [
      | none ↦ none
      | some prio ↦
          if in_range prio
          then some (record {
            priority = prio;
            family = family;
            src = parse_rule_from line;
            iif = parse_rule_iif line;
          })
          else none
    ]
  ]

  unfoldable pub parse_lines : String → List String → List ExitRule
  parse_lines family [] = []
  parse_lines family (l ∷ ls) =
      let rest = parse_lines family ls in
      elim (parse_line family l) [ none ↦ rest | some r ↦ r ∷ rest ]

  unfoldable pub parse_rules : String → String → List ExitRule
  unfolding parse_lines
  parse_rules output family = parse_lines family (E.lines output)

  -- The rules of the clients from a priority on, until the priorities end. A client that has no
  -- family is passed over.
  unfoldable pub client_rules : ℕ → List ExitNodeClient → List ExitRule
  client_rules prio [] = []
  client_rules prio (c ∷ cs) =
      let skipped = client_rules prio cs in
      let rest = client_rules (prio + 1) cs in
      let rule : ExitRule = record {
        priority = pos prio;
        family = family_for_addr c.ip;
        src = normalize_rule_src c.ip;
        iif = "";
      } in
      if family_for_addr c.ip == ""
      then skipped
      else rule ∷ elim (ltb exit_rule_max_prio (prio + 1)) [ true ↦ [] | false ↦ rest ]

  unfoldable pub build_desired_rules : ExitNodePolicy → List String → List ExitRule
  unfolding bridge_rules client_rules
  build_desired_rules policy bridges = elim policy.mode [
    | all ↦ bridge_rules exit_rule_base_prio bridges
    | selective ↦ client_rules (exit_rule_base_prio + 1) policy.clients
    | unset ↦ []
    | off ↦ []
    | unknown _ ↦ []
  ]

  -- The loop over the clients of a selective policy.
  unfoldable pub check_clients : List ExitNodeClient → Result ⊤
  check_clients [] = ok tt
  check_clients (c ∷ cs) =
      let rest = check_clients cs in
      if family_for_addr c.ip == ""
      then err (text "invalid client IP/CIDR")
      else if is_catch_all_prefix c.ip
      then err (text "selective client is a catch-all prefix; use mode=all explicitly")
      else rest

  unfoldable pub validate_exit_node_policy : ExitNodePolicy → Result ⊤
  unfolding check_clients
  validate_exit_node_policy policy = elim policy.mode [
    | off ↦ ok tt
    | all ↦ ok tt
    | selective ↦
        if ltb max_exit_clients (length policy.clients)
        then err (text "too many exit clients")
        else check_clients policy.clients
    | unset ↦ err (text "unknown exit node mode")
    | unknown _ ↦ err (text "unknown exit node mode")
  ]
