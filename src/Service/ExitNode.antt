-- ===== src/Service/ExitNode.antt =====
-- `ExitNodeService` of manager/service/exitnode.go: the ip rules and the masquerading that send
-- clients through an exit node. The service's mutex makes each call one action.
pub mod Rules
pub mod Commands
pub mod Apply
pub mod Keeping
pub mod Plan
pub mod Priorities
use vpn_pack.Common.{ℕ, String, Bool, Option, List, ⊤, Error, Result, Action}
pub use vpn_pack.Domain.{
  ExitNodeMode, unset, off, all, selective, unknown, ExitNodeClient, ExitNodePolicy,
}
use vpn_pack.Common.Int.{ℤ}

pub record ExitRule : Type 0 where
  pub priority : ℤ
  pub family : String
  pub src : String
  pub iif : String

-- `netip.Prefix` and `netip.Addr`, what the code asks of them
pub record Prefix : Type 0 where
  pub is_4 : Bool
  pub is_6 : Bool
  pub bits : ℤ
  pub addr_string : String

-- What the service calls: the command runner, the manifest, /sys/class/net, netip, strings,
-- strconv and bufio.
pub record ExitEnv : Type 1 where
  pub World : Type 0
  pub run : String → List String → World → (String × Option Error) × World
  pub set_exit_node_policy : ExitNodePolicy → Action World ⊤
  pub discover_bridges : World → Result (List String)
  pub parse_prefix : String → Option Prefix
  -- whether the address is an IPv4 one
  pub parse_addr : String → Option Bool
  pub error_text : Error → String
  pub to_lower : String → String
  pub trim_space : String → String
  pub atoi : String → Option ℤ
  pub lines : String → List String

-- The state that the steps of a call share: the world, and the variable `v6Installed`.
pub record ExitState (World : Type 0) : Type 0 where
  pub world : World
  pub v6_installed : Bool
