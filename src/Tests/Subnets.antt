-- ===== src/Tests/Subnets.antt =====
-- The subnet validation.
use mathlib.Core.Path.{subst}
use vpn_pack.Common.{
  ◌≡◌, ◌↔◌, refl, ◌∙◌, ap, sym, inl, inr, String, true, Option, none, some, [], ◌∷◌, contains, ◌==◌,
  string_eq, Bool-cases, if◌then◌else◌, arith,
}
use vpn_pack.Net.{IpNet, NetText}
use vpn_pack.Service.SubnetValidator.{SystemSubnets, network, subnets_overlap, validate_allowed_ips}
use vpn_pack.Service.SubnetValidator.Overlap.{IsMasked, Shared, subnets_overlap-Shared}
use vpn_pack.Service.SubnetValidator.Blocked.{
  blocked_prefixes, Conflicts, validate_allowed_ips-Conflicts,
}

abbrev ten : IpNet  -- 10.0.0.0/8
ten = record { ip = record { is_v4 = true; value = 167772160 }; ones = 8 }

abbrev office : IpNet  -- 10.1.0.0/16
office = record { ip = record { is_v4 = true; value = 167837696 }; ones = 16 }

subnets_overlap-Shared_example : (subnets_overlap ten office ≡ true) ↔ Shared ten office
subnets_overlap-Shared_example = subnets_overlap-Shared ten office refl refl

abbrev two_networks : NetText
two_networks = record {
  parse_cidr = λ s. if s == "10.0.0.0/8" then some (ten.ip, ten) else some (office.ip, office);
  to_string = λ n. "";
}

abbrev or_ten : Option IpNet → IpNet
or_ten none = ten
or_ten (some n) = n

parsed-IsMasked : (s : String) (n : IpNet) → network two_networks s ≡ some n → IsMasked n
parsed-IsMasked s n h = elim (Bool-cases (s == "10.0.0.0/8")) [
  | inl here ↦
      let read : network two_networks s ≡ some ten = ground arith in
      let one : ten ≡ n = ap or_ten (sym read ∙ h) in subst IsMasked one refl
  | inr other ↦
      let read : network two_networks s ≡ some office = ground arith in
      let one : office ≡ n = ap or_ten (sym read ∙ h) in subst IsMasked one refl
]

abbrev lan : SystemSubnets
lan = record {
  interfaces = record { cidr = "10.1.0.0/16"; interface = "br0" } ∷ [];
  routes = [];
  table_52_routes = [];
  pbr_rules = [];
}

validate_allowed_ips-Conflicts_example :
    (contains {A = String} "10.0.0.0/8"
        (blocked_prefixes (validate_allowed_ips two_networks ("10.0.0.0/8" ∷ []) lan))
      ≡ true)
    ↔ ((contains {A = String} "10.0.0.0/8" ("10.0.0.0/8" ∷ []) ≡ true)
        × Conflicts two_networks lan "10.0.0.0/8")
validate_allowed_ips-Conflicts_example =
    validate_allowed_ips-Conflicts two_networks parsed-IsMasked lan ("10.0.0.0/8" ∷ []) "10.0.0.0/8"
