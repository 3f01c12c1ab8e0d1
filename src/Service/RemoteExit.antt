-- ===== src/Service/RemoteExit.antt =====
-- manager/service/remote_exit.go: sending the clients' traffic through an exit node of the tailnet.
-- The saga works on the manifest in memory and its world, with the rules of `ExitNode` between the
-- manifest and Tailscale's preferences.
pub mod Status
pub mod Enable
pub mod Disable
pub mod Keeping
pub mod Confirm
pub mod Rollback
pub mod Sync
use vpn_pack.Common.{ℕ, String, Bool, Option, List, ⊤, Error, Result, ok, err, Action}
use vpn_pack.Common.Int.{ℤ}
use vpn_pack.Domain.{ExitNodeMode, ExitNodeClient}
use vpn_pack.State.Manifest.{ManifestEnv, ManifestState}
use vpn_pack.State.Manifest.Edit.{set_exit_node_policy}
use vpn_pack.Service.ExitNode.{ExitEnv, Prefix}

-- `ipnstate.PeerStatus`, `ipnstate.Status` and `ipn.Prefs`, what the code reads of them. The peers
-- stand in the order in which Go walks the map.
pub record PeerStatus : Type 0 where
  pub id : String
  pub host_name : String
  pub dns_name : String
  pub online : Bool
  pub os : String
  pub exit_node_option : Bool
  pub exit_node : Bool

pub record TsStatus : Type 0 where
  pub peers : List PeerStatus
  -- the exit node in use: its identifier and whether it is online
  pub exit_node_status : Option (String × Bool)

pub record Prefs : Type 0 where
  pub exit_node_id : String
  pub allow_lan_access : Bool
  pub advertise_routes : List Prefix

-- `ipn.MaskedPrefs`: the exit node and the access to the LAN are always set, the routes where
-- there are some.
pub record MaskedPrefs : Type 0 where
  pub exit_node_id : String
  pub allow_lan_access : Bool
  pub advertise_routes : Option (List Prefix)

pub record ExitNodePeer : Type 0 where
  pub id : String
  pub host_name : String
  pub dns_name : String
  pub online : Bool
  pub os : String
  pub active : Bool

pub record RemoteExitNodeStatus : Type 0 where
  pub peer_id : String
  pub host_name : String
  pub online : Bool
  pub mode : ExitNodeMode
  pub clients : List ExitNodeClient

pub record EnableRequest : Type 0 where
  pub peer_id : String
  pub mode : ExitNodeMode
  pub clients : List ExitNodeClient
  pub confirm : Bool

pub record EnableResult : Type 0 where
  pub is_done : Bool
  pub confirm_required : Bool
  pub message : String

-- What the service calls: the manifest's world, Tailscale's local API, the command runner, netip,
-- strings, strconv and bufio. `has_rules` says whether there is an exit node service.
pub record RemoteEnv : Type 1 where
  pub env : ManifestEnv
  pub status : Action env.World TsStatus
  pub get_prefs : Action env.World Prefs
  pub edit_prefs : MaskedPrefs → Action env.World ⊤
  pub advertises_exit_node : Prefs → Bool
  pub has_rules : Bool
  pub run : String → List String → env.World → (String × Option Error) × env.World
  pub discover_bridges : env.World → Result (List String)
  pub parse_prefix : String → Option Prefix
  pub parse_addr : String → Option Bool
  pub error_text : Error → String
  pub to_lower : String → String
  pub trim_space : String → String
  pub atoi : String → Option ℤ
  pub lines : String → List String

module _ (R : RemoteEnv) where
  -- The manifest and the world.
  abbrev pub Store : Type 0
  Store = ManifestState R.env.World R.env.Time

  -- The exit node service over the manifest.
  abbrev pub exit_env : ExitEnv
  exit_env = record {
    World = Store;
    run = λ name args s. (let (r, w) = R.run name args s.world in (r, record s { world = w }));
    set_exit_node_policy = set_exit_node_policy R.env;
    discover_bridges = λ s. R.discover_bridges s.world;
    parse_prefix = R.parse_prefix;
    parse_addr = R.parse_addr;
    error_text = R.error_text;
    to_lower = R.to_lower;
    trim_space = R.trim_space;
    atoi = R.atoi;
    lines = R.lines;
  }

-- The service: `sagaMu`, `applying`, and what they guard.
pub record Service (S : Type 0) : Type 0 where
  pub locked : Bool
  pub applying : Bool
  pub store : S
