-- ===== src/Domain.antt =====
-- manager/domain/types.go: the values that the services, the manifest and the clients exchange.
use vpn_pack.Common.{String, List}
use vpn_pack.Common.Int.{ℤ}

-- A mode is a string in the source; `unknown` is any other one, and `unset` the empty one.
pub data ExitNodeMode : Type 0 where
  unset off all selective : ExitNodeMode
  unknown : String → ExitNodeMode

pub record ExitNodeClient : Type 0 where
  pub ip : String
  pub label : String

pub record ExitNodePolicy : Type 0 where
  pub mode : ExitNodeMode
  pub clients : List ExitNodeClient

pub record RemoteExitNode : Type 0 where
  pub peer_id : String
  pub mode : ExitNodeMode
  pub clients : List ExitNodeClient

pub record ZoneManifest : Type 0 where
  pub zone_id : String
  pub zone_name : String
  pub policy_ids : List String
  pub chain_prefix : String

pub record WanPortEntry : Type 0 where
  pub policy_id : String
  pub policy_name : String
  pub port : ℤ

pub record DnsPolicyEntry : Type 0 where
  pub policy_id : String
  pub domain : String
  pub ip_address : String

pub record WgS2sZoneInfo : Type 0 where
  pub zone_id : String
  pub zone_name : String
  pub tunnel_count : ℤ
