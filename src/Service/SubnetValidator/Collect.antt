-- ===== src/Service/SubnetValidator/Collect.antt =====
-- The collecting of the host's networks, routes and rules.
use Prim.Native.String.{◌++◌ as ◌<>◌}
use vpn_pack.Common.{
  ℕ, String, Bool, not, ◌&&◌, ◌||◌, Option, none, some, List, [], ◌∷◌, ◌++◌, ltb, contains, wrap,
  Result, ok, err, ⊤, ◌==◌, string_eq, nat_eq, if◌then◌else◌,
}
use vpn_pack.Common.Int.{pos}
use vpn_pack.Common.Decimal.{itoa}
use vpn_pack.Net.{NetText}
use vpn_pack.Service.SubnetValidator.{InterfaceSubnet, RouteSubnet, PbrInfo, SystemSubnets}

-- `net.Interface`, with its addresses as they are printed
pub record Interface : Type 0 where
  pub name : String
  pub is_loopback : Bool
  pub addrs : Result (List String)

-- `rtnetlink.RouteMessage`, with its addresses as they are printed
pub record RouteMessage : Type 0 where
  pub dst : Option String
  pub dst_length : ℕ
  pub table : ℕ
  pub out_iface : ℕ
  pub gateway : Option String
  pub protocol : ℕ

pub record RuleAttributes : Type 0 where
  pub priority : Option ℕ
  pub table : Option ℕ
  pub fw_mark : Option ℕ
  pub fw_mask : Option ℕ

pub record RuleMessage : Type 0 where
  pub table : ℕ
  pub attributes : Option RuleAttributes

-- What net and rtnetlink answer.
pub record Host : Type 0 where
  pub interfaces : Result (List Interface)
  pub dial : Result ⊤
  pub routes : Result (List RouteMessage)
  pub rules : Result (List RuleMessage)
  pub interface_by_index : ℕ → Result String

-- unix.RT_TABLE_MAIN
abbrev main_table : ℕ
main_table = 254

abbrev tailscale_route_table : ℕ
tailscale_route_table = 52

abbrev pbr_priority_min : ℕ
pbr_priority_min = 32500

abbrev pbr_priority_max : ℕ
pbr_priority_max = 32766

unfoldable pub if_index_to_name : Host → ℕ → String
unfolding itoa
if_index_to_name host idx =
    if idx == 0
    then ""
    else elim (host.interface_by_index idx) [ err e ↦ "if" <> itoa (pos idx) | ok name ↦ name ]

unfoldable pub rt_protocol_name : ℕ → String
unfolding itoa
rt_protocol_name proto =
    if proto == 2
    then "kernel"
    else if proto == 3
    then "boot"
    else if proto == 4
    then "static"
    else if proto == 16
    then "dhcp"
    else "proto-" <> itoa (pos proto)

abbrev deref_uint32 : Option ℕ → ℕ
deref_uint32 none = 0
deref_uint32 (some n) = n

unfoldable pub rule_priority : RuleMessage → ℕ
rule_priority r = elim r.attributes [ none ↦ 0 | some a ↦ deref_uint32 a.priority ]

unfoldable pub rule_table : RuleMessage → ℕ
rule_table r = elim r.attributes [
  | none ↦ r.table
  | some a ↦ elim a.table [ some t ↦ t | none ↦ r.table ]
]

-- `excludeSet[name]`
abbrev excluded : List String → String → Bool
excluded exclude name = not (name == "") && contains name exclude

module _ (net : NetText) where
  -- The addresses of an interface that parse.
  unfoldable pub interface_subnets : String → List String → List InterfaceSubnet
  interface_subnets name [] = []
  interface_subnets name (addr ∷ addrs) =
      let rest = interface_subnets name addrs in
      elim (net.parse_cidr addr) [
        | none ↦ rest
        | some p ↦ record { cidr = net.to_string p.1; interface = name } ∷ rest
      ]

  unfoldable pub collect_interfaces : List String → List Interface → List InterfaceSubnet
  unfolding interface_subnets
  collect_interfaces exclude [] = []
  collect_interfaces exclude (i ∷ is) =
      let rest = collect_interfaces exclude is in
      if excluded exclude i.name || i.is_loopback
      then rest
      else elim i.addrs [ err e ↦ rest | ok addrs ↦ interface_subnets i.name addrs ++ rest ]

unfoldable pub route_subnet : Host → RouteMessage → String → RouteSubnet
unfolding if_index_to_name rt_protocol_name
route_subnet host rt dst = record {
  cidr = dst <> ("/" <> itoa (pos rt.dst_length));
  interface = if_index_to_name host rt.out_iface;
  gateway = elim rt.gateway [ none ↦ "" | some g ↦ g ];
  protocol = rt_protocol_name rt.protocol;
}

-- The routes of one of the two tables.
unfoldable pub collect_routes : Host → List String → ℕ → List RouteMessage → List RouteSubnet
unfolding route_subnet
collect_routes host exclude table [] = []
collect_routes host exclude table (rt ∷ rts) =
    let rest = collect_routes host exclude table rts in
    elim rt.dst [
      | none ↦ rest
      | some dst ↦
          if rt.table == table && not (excluded exclude (if_index_to_name host rt.out_iface))
          then route_subnet host rt dst ∷ rest
          else rest
    ]

-- A rule of a Traffic Route, if it is one.
unfoldable pub pbr_info : RuleMessage → Option PbrInfo
unfolding rule_priority rule_table
pbr_info r = elim r.attributes [
  | none ↦ none
  | some a ↦ elim a.fw_mark [
    | none ↦ none
    | some mark ↦
        if ltb (rule_priority r) pbr_priority_min || not (ltb (rule_priority r) pbr_priority_max)
        then none
        else if rule_table r == 0
        then none
        else some (record {
          rule_priority = rule_priority r;
          fw_mark = mark;
          fw_mask = deref_uint32 a.fw_mask;
          table = rule_table r;
        })
  ]
]

unfoldable pub collect_rules : List RuleMessage → List PbrInfo
unfolding pbr_info
collect_rules [] = []
collect_rules (r ∷ rs) =
    let rest = collect_rules rs in elim (pbr_info r) [ none ↦ rest | some p ↦ p ∷ rest ]

module _ (net : NetText) where
  unfoldable pub collect_system_subnets : Host → List String → Result SystemSubnets
  unfolding collect_interfaces collect_routes collect_rules
  collect_system_subnets host exclude = elim host.interfaces [
    | err e ↦ err (wrap "list interfaces" e)
    | ok is ↦
        let sys : SystemSubnets = record {
          interfaces = collect_interfaces net exclude is;
          routes = [];
          table_52_routes = [];
          pbr_rules = [];
        } in
        elim host.dial [
          | err e ↦ ok sys
          | ok _ ↦ elim host.routes [
            | err e ↦ ok sys
            | ok rts ↦ ok (record sys {
              routes = collect_routes host exclude main_table rts;
              table_52_routes = collect_routes host exclude tailscale_route_table rts;
              pbr_rules = elim host.rules [ err e ↦ [] | ok rs ↦ collect_rules rs ];
            })
          ]
        ]
  ]
