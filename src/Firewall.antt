-- ===== src/Firewall.antt =====
-- manager/firewall.go: the firewall of the tunnels and of Tailscale, on the manifest, the gateway's
-- API and the host's iptables. A lookup that is in flight is not shared, since a call is one
-- action; the caches are kept.
pub mod Text
pub mod Tokens
pub mod Probes
pub mod Tunnels
pub mod Order
pub mod Ports
pub mod Chains
pub mod Placed
pub mod Shadow
pub mod Idempotent
use vpn_pack.Common.{ℕ, String, Option, Bool, List, ⊤, Error, Result, Action}
use vpn_pack.Common.Int.{ℤ}
use vpn_pack.Common.Map.{Map}
use vpn_pack.Net.{NetText}
use vpn_pack.Service.SubnetValidator.Collect.{Host}
use vpn_pack.State.Manifest.{ManifestEnv, Manifest}

-- What the code calls: the manifest's world, iptables, ipset and mongo, the integration client
-- (`ic`), the seams to udapi, strings, and the clock in nanoseconds.
pub record FirewallEnv : Type 1 where
  pub env : ManifestEnv
  pub clock : env.World → ℕ
  pub fields : String → List String
  pub lines : String → List String
  pub trim_space : String → String
  pub iptables_save : env.World → Result String
  pub iptables_list : String → env.World → Result String
  pub ipset_list : String → env.World → Result String
  pub mongo_zones : env.World → Result String
  pub iptables : List String → Action env.World ⊤
  pub has_ic : Bool
  pub has_api_key : env.World → Bool
  pub is_not_found : Error → Bool
  pub ensure_wan_port_policy : String → ℤ → String → String → String → Action env.World String
  pub delete_policy : String → String → Action env.World ⊤
  pub find_system_zone_ids : String → Action env.World (String × String)
  pub ensure_dns_forward_domain : String → String → String → Action env.World String
  pub delete_dns_policy : String → String → Action env.World ⊤
  pub add_interface_rules : String → String → String → Action env.World ⊤
  pub remove_interface_rules : String → String → Action env.World ⊤
  pub ensure_zone_subnet : String → String → Action env.World ⊤
  pub ensure_zone_subnets : String → List String → Action env.World ⊤
  pub remove_zone_subnet : String → String → Action env.World ⊤
  pub net : NetText
  pub host : env.World → Host

pub record Firewall (World Time : Type 0) : Type 0 where
  pub manifest : Manifest Time
  pub world : World
  pub filter_cache : String
  pub filter_time : ℕ
  pub ipset_cache : String
  pub ipset_set : String
  pub ipset_time : ℕ
  pub mongo_cache : Option (Map String String)
  pub mongo_time : ℕ
