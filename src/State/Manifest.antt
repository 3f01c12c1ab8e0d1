-- ===== src/State/Manifest.antt =====
-- manager/state/manifest.go: what the manager has to remember of the zones, policies and exit
-- nodes that it set up. A call is an action on the manifest in memory and the world, since the
-- mutex makes it one. A nil map and an empty one are both the empty list: no operation and no
-- written file tells them apart.
pub mod Edit
pub mod Read
pub mod Load
pub mod Edits
pub mod Zones
pub mod Migration
pub mod Recovery
pub mod RoundTrip
use Prim.Native.String.{◌++◌ as ◌<>◌}
use vpn_pack.Common.{
  ℕ, String, Bool, false, Option, none, List, [], ⊤, Error, Result, ok, err, Action,
}
use vpn_pack.Common.Int.{ℤ, pos}
use vpn_pack.Common.Map.{Map}
use vpn_pack.Atomic.{Fs}
use vpn_pack.Domain.{ExitNodePolicy, RemoteExitNode, ZoneManifest, WanPortEntry, DnsPolicyEntry}

-- The fields `path` and `recovered` are not written to the file.
pub record Manifest (Time : Type 0) : Type 0 where
  pub path : String
  pub recovered : Bool
  pub version : ℤ
  pub created_at : Time
  pub updated_at : Time
  pub site_id : String
  pub tailscale : ZoneManifest
  pub wg_s2s : Map String ZoneManifest
  pub wan_ports : Map String WanPortEntry
  pub external_zone_id : String
  pub gateway_zone_id : String
  pub dns_policies : Map String DnsPolicyEntry
  pub exit_node_policy : Option ExitNodePolicy
  pub advertise_exit_node_enabled : Bool
  pub remote_exit_node : Option RemoteExitNode

-- The fields of a file of version 1 that are read; `mode_b` is flattened.
pub record ManifestV1 (Time : Type 0) : Type 0 where
  pub created_at : Time
  pub updated_at : Time
  pub zone_id : String
  pub policy_ids : List String

-- What the code calls of os, time and encoding/json.
pub record ManifestEnv : Type 1 where
  pub World : Type 0
  pub Time : Type 0
  pub now : World → Time
  pub zero_time : Time
  pub unix : Time → ℤ
  pub fs : Fs World
  pub mkdir_all : String → ℕ → Action World ⊤
  pub read_file : String → World → Result String
  pub is_not_exist : Error → Bool
  pub os_write_file : String → String → ℕ → Action World ⊤
  pub marshal : Manifest Time → Result String
  pub unmarshal : String → Result (Manifest Time)
  pub unmarshal_raw : String → Result (Map String String)
  pub unmarshal_int : String → Result ℤ
  pub unmarshal_v1 : String → Result (ManifestV1 Time)

pub record ManifestState (World Time : Type 0) : Type 0 where
  pub manifest : Manifest Time
  pub world : World

abbrev pub zero_zone : ZoneManifest
zero_zone = record { zone_id = ""; zone_name = ""; policy_ids = []; chain_prefix = "" }

-- `&Manifest{Version: 2, CreatedAt: now}`
abbrev pub fresh_manifest : {Time : Type 0} → String → Time → Time → Manifest Time
fresh_manifest path now zero = record {
  path = path;
  recovered = false;
  version = pos 2;
  created_at = now;
  updated_at = zero;
  site_id = "";
  tailscale = zero_zone;
  wg_s2s = [];
  wan_ports = [];
  external_zone_id = "";
  gateway_zone_id = "";
  dns_policies = [];
  exit_node_policy = none;
  advertise_exit_node_enabled = false;
  remote_exit_node = none;
}

-- config.DirPerm and config.SecretPerm
abbrev pub dir_perm : ℕ
dir_perm = 493

abbrev pub secret_perm : ℕ
secret_perm = 384
