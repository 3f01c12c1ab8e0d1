-- ===== src/Wgs2s/Config.antt =====
-- manager/domain/wgs2s_types.go, manager/internal/wgs2s/config.go and consts.go: the tunnels'
-- configuration. A slice that may be nil is an `Option`; a time is a number.
use vpn_pack.Common.{ℕ, String, Bool, Option, none, some, List, []}
use vpn_pack.Common.Int.{ℤ, pos, is_positive}
use vpn_pack.Common.{if◌then◌else◌}

pub record TunnelConfig : Type 0 where
  pub id : String
  pub name : String
  pub interface_name : String
  pub listen_port : ℤ
  pub tunnel_address : String
  pub peer_public_key : String
  pub peer_endpoint : String
  pub allowed_ips : Option (List String)
  pub local_subnets : Option (List String)
  pub persistent_keepalive : ℤ
  pub mtu : ℤ
  pub route_metric : ℤ
  pub enabled : Bool
  pub created_at : ℕ

-- The items of a slice; nil has none.
abbrev pub items : {A : Type 0} → Option (List A) → List A
items none = []
items (some xs) = xs

abbrev pub default_persistent_keepalive : ℤ
default_persistent_keepalive = pos 25

abbrev pub default_mtu : ℤ
default_mtu = pos 1420

abbrev pub default_route_metric : ℤ
default_route_metric = pos 100

-- `effectiveMetric` of routes.go
unfoldable pub effective_metric : ℤ → ℤ
effective_metric metric = if is_positive metric then metric else default_route_metric
