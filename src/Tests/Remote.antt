-- ===== src/Tests/Remote.antt =====
-- The remote exit node.
use vpn_pack.Common.{◌≡◌, refl, inr, true, false, none, [], ◌∷◌, ok, pure}
use vpn_pack.Domain.{all, selective}
use vpn_pack.Common.Int.{pos}
use vpn_pack.Service.ExitNode.{Prefix}
use vpn_pack.Ops.{background}
use vpn_pack.Service.RemoteExit.{PeerStatus, Prefs, EnableRequest, RemoteEnv, Store, Service}
use vpn_pack.Service.RemoteExit.Enable.{enable}
use vpn_pack.Service.RemoteExit.Disable.{disable, sync_manifest}
use vpn_pack.Service.RemoteExit.Keeping.{remote_of}
use vpn_pack.Service.RemoteExit.Confirm.{Weighty, Unchanged, enable-Unchanged}
use vpn_pack.Service.RemoteExit.Rollback.{
  EnableEnds, DisableEnds, enable-EnableEnds, disable-DisableEnds,
}
use vpn_pack.Service.RemoteExit.Sync.{Follows, KeepsMode, sync_manifest-settles}
use vpn_pack.Tests.Manifest.{disk_env, empty_disk, blank}

abbrev exit_peer : PeerStatus
exit_peer = record {
  id = "peer";
  host_name = "exit";
  dns_name = "exit.net";
  online = true;
  os = "linux";
  exit_node_option = true;
  exit_node = false;
}

abbrev prefs : Prefs
prefs = record { exit_node_id = "peer"; allow_lan_access = true; advertise_routes = [] }

-- A host whose exit node is `peer`.
abbrev host : RemoteEnv
host = record {
  env = disk_env;
  status = pure (record { peers = exit_peer ∷ []; exit_node_status = none });
  get_prefs = pure prefs;
  edit_prefs = λ p. pure tt;
  advertises_exit_node = λ p. false;
  has_rules = true;
  run = λ name args w. (("", none), w);
  discover_bridges = λ w. ok ("br0" ∷ []);
  parse_prefix = λ s. none;
  parse_addr = λ s. none;
  error_text = λ e. "";
  to_lower = λ s. s;
  trim_space = λ s. s;
  atoi = λ s. none;
  lines = λ s. [];
}

abbrev idle : Service (Store host)
idle = record {
  locked = false;
  applying = false;
  store = record { manifest = blank; world = empty_disk };
}

abbrev everyone : EnableRequest
everyone = record { peer_id = "peer"; mode = all; clients = []; confirm = false }

abbrev whole_internet : Prefix
whole_internet = record { is_4 = true; is_6 = false; bits = pos 0; addr_string = "0.0.0.0" }

-- A host that advertises itself as an exit node, while its preferences have routes.
abbrev advertised : Prefs
advertised = record prefs { advertise_routes = whole_internet ∷ [] }

abbrev advertising : RemoteEnv
advertising = record host {
  get_prefs = pure advertised;
  advertises_exit_node = λ p. elim p.advertise_routes [ [] ↦ false | _ ∷ _ ↦ true ];
}

abbrev some_clients : EnableRequest
some_clients = record everyone { mode = selective }

some_clients-Weighty : Weighty advertising some_clients idle.store
some_clients-Weighty = inr (
  advertised,
  (record { peers = exit_peer ∷ []; exit_node_status = none }, empty_disk, empty_disk, refl, refl),
  refl,
)

enable-Unchanged_example :
    Unchanged advertising some_clients idle
      (enable advertising background background some_clients idle)
enable-Unchanged_example =
    enable-Unchanged advertising some_clients background background idle refl some_clients-Weighty

abbrev confirmed : EnableRequest
confirmed = record everyone { confirm = true }

enable-EnableEnds_example :
    EnableEnds host background background confirmed idle
      (enable host background background confirmed idle)
enable-EnableEnds_example = enable-EnableEnds host background background confirmed idle

disable-DisableEnds_example : DisableEnds host idle (disable host idle)
disable-DisableEnds_example = disable-DisableEnds host idle

sync_manifest-settles_example :
    Follows "peer" (remote_of host (sync_manifest host idle).1.store)
    × (KeepsMode none (remote_of host (sync_manifest host idle).1.store)
        × (sync_manifest host (sync_manifest host idle).1 ≡ (
          ok tt,
          record ((sync_manifest host idle).1) {
            store = record ((sync_manifest host idle).1.store) {
              world = (sync_manifest host idle).1.store.world;
            };
          },
        )))
sync_manifest-settles_example =
    sync_manifest-settles host idle prefs prefs empty_disk (sync_manifest host idle).1.store.world
      refl refl refl refl
