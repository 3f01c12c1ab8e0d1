-- ===== src/Service/SubnetValidator.antt =====
-- manager/service/subnet_validator.go: whether prefixes of a tunnel share addresses with the
-- host's networks.
pub mod Collect
pub mod Overlap
pub mod Blocked
use Prim.Native.String.{◌++◌ as ◌<>◌}
use vpn_pack.Common.{
  ℕ, leb, ◌-◌, ◌/◌, ◌^◌, String, Bool, true, false, ◌&&◌, ◌||◌, Option, none, some, List, [], ◌∷◌,
  ◌==◌, string_eq, nat_eq, if◌then◌else◌,
}
use vpn_pack.Net.{Ip, IpNet, NetText}

pub record SubnetConflict : Type 0 where
  pub cidr : String
  pub conflicts_with : String
  pub interface : String
  pub severity : String
  pub message : String

pub record InterfaceSubnet : Type 0 where
  pub cidr : String
  pub interface : String

pub record RouteSubnet : Type 0 where
  pub cidr : String
  pub interface : String
  pub gateway : String
  pub protocol : String

-- The numbers are those of uint32.
pub record PbrInfo : Type 0 where
  pub rule_priority : ℕ
  pub fw_mark : ℕ
  pub fw_mask : ℕ
  pub table : ℕ

pub record SystemSubnets : Type 0 where
  pub interfaces : List InterfaceSubnet
  pub routes : List RouteSubnet
  pub table_52_routes : List RouteSubnet
  pub pbr_rules : List PbrInfo

pub record ValidationResult : Type 0 where
  pub blocked : List SubnetConflict
  pub warnings : List SubnetConflict

abbrev is_empty : List SubnetConflict → Bool
is_empty [] = true
is_empty (_ ∷ _) = false

unfoldable pub has_blocks : ValidationResult → Bool
has_blocks r = if is_empty r.blocked then false else true

unfoldable pub is_clean : ValidationResult → Bool
is_clean r = is_empty r.blocked && is_empty r.warnings

-- The number of bits behind the mask. The mask of an IPv4 network has 32 bits, or 128 where the
-- prefix was written in IPv6: then it has more than 32 ones, and `Contains` takes its last 32 bits.
abbrev pub host_bits : IpNet → ℕ
host_bits n = if n.ip.is_v4 && leb n.ones 32 then 32 - n.ones else 128 - n.ones

abbrev pub same_family : Ip → Ip → Bool
same_family a b = if a.is_v4 then b.is_v4 else (if b.is_v4 then false else true)

-- `IPNet.Contains`: the addresses have the same length and agree on the bits of the mask.
unfoldable pub contains_ip : IpNet → Ip → Bool
contains_ip n a = same_family n.ip a && n.ip.value / 2 ^ host_bits n == a.value / 2 ^ host_bits n

unfoldable pub subnets_overlap : IpNet → IpNet → Bool
unfolding contains_ip
subnets_overlap a b = contains_ip a b.ip || contains_ip b a.ip

module _ (net : NetText) where
  abbrev pub network : String → Option IpNet
  network cidr = elim (net.parse_cidr cidr) [ none ↦ none | some p ↦ some p.1 ]

  -- Whether the candidate overlaps with a prefix, which is passed over where it does not parse.
  unfoldable pub hits : IpNet → String → Bool
  unfolding subnets_overlap
  hits candidate cidr = elim (network cidr) [ none ↦ false | some n ↦ subnets_overlap candidate n ]

  -- The loop over the interfaces, which ends at the first overlap.
  unfoldable pub find_interface : IpNet → List InterfaceSubnet → Option InterfaceSubnet
  unfolding hits
  find_interface candidate [] = none
  find_interface candidate (s ∷ ss) =
      let rest = find_interface candidate ss in if hits candidate s.cidr then some s else rest

  -- The loops over the routes, which end at the first overlap.
  unfoldable pub find_route : IpNet → List RouteSubnet → Option RouteSubnet
  unfolding hits
  find_route candidate [] = none
  find_route candidate (s ∷ ss) =
      let rest = find_route candidate ss in if hits candidate s.cidr then some s else rest

  abbrev via : RouteSubnet → String
  via s = if s.gateway == "" then s.interface else s.gateway

  unfoldable pub interface_conflict : String → InterfaceSubnet → SubnetConflict
  interface_conflict cidr s = record {
    cidr = cidr;
    conflicts_with = s.cidr;
    interface = s.interface;
    severity = "block";
    message = cidr <> (" overlaps with " <> (s.cidr <> (" (" <> (s.interface <> ")"))));
  }

  unfoldable pub table_52_conflict : String → RouteSubnet → SubnetConflict
  table_52_conflict cidr s = record {
    cidr = cidr;
    conflicts_with = s.cidr <> (" (table 52 via " <> (via s <> ")"));
    interface = s.interface;
    severity = "warn";
    message =
        "Tailscale route "
        <> (s.cidr
            <> (" in table 52 (priority 5270) overrides S2S routes in main table (priority 32000). "
                <> "Traffic will go through Tailscale instead of this tunnel."));
  }

  unfoldable pub pbr_conflict : String → SubnetConflict
  pbr_conflict cidr = record {
    cidr = cidr;
    conflicts_with = "Traffic Routes (PBR)";
    interface = "";
    severity = "warn";
    message =
        "Traffic Routes are configured on this device (ip rules at priority 32500+). "
        <> ("S2S route "
            <> (cidr
                <> (" in main table (priority 32000) takes precedence over Traffic Routes (priority 32500+). "
                    <> ("If any Traffic Route targets destinations overlapping with "
                        <> (cidr <> ", it will stop working.")))));
  }

  unfoldable pub route_conflict : String → RouteSubnet → SubnetConflict
  route_conflict cidr s = record {
    cidr = cidr;
    conflicts_with = s.cidr <> (" (" <> (s.protocol <> (" route via " <> (via s <> ")"))));
    interface = s.interface;
    severity = "warn";
    message =
        "Overlaps with existing route "
        <> (s.cidr <> ". Traffic may not be routed through tunnel.");
  }

  -- What is said of one prefix that is not blocked, if anything.
  unfoldable pub warning_of : String → IpNet → SystemSubnets → Option SubnetConflict
  unfolding find_route table_52_conflict pbr_conflict route_conflict
  warning_of cidr candidate sys = elim (find_route candidate sys.table_52_routes) [
    | some s ↦ some (table_52_conflict cidr s)
    | none ↦ elim sys.pbr_rules [
      | _ ∷ _ ↦ some (pbr_conflict cidr)
      | [] ↦ elim (find_route candidate sys.routes) [
        | some s ↦ some (route_conflict cidr s)
        | none ↦ none
      ]
    ]
  ]

  -- The body of the loop, in front of what the prefixes behind it give.
  unfoldable pub validate_one : String → SystemSubnets → ValidationResult → ValidationResult
  unfolding find_interface interface_conflict warning_of
  validate_one cidr sys rest = elim (network cidr) [
    | none ↦ rest
    | some candidate ↦ elim (find_interface candidate sys.interfaces) [
      | some s ↦ record rest { blocked = interface_conflict cidr s ∷ rest.blocked }
      | none ↦ elim (warning_of cidr candidate sys) [
        | some c ↦ record rest { warnings = c ∷ rest.warnings }
        | none ↦ rest
      ]
    ]
  ]

  -- What is found in a prefix stands before what is found in those behind it.
  unfoldable pub validate_allowed_ips : List String → SystemSubnets → ValidationResult
  unfolding validate_one
  validate_allowed_ips [] sys = record { blocked = []; warnings = [] }
  validate_allowed_ips (cidr ∷ cidrs) sys = validate_one cidr sys (validate_allowed_ips cidrs sys)
