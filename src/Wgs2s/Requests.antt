-- ===== src/Wgs2s/Requests.antt =====
-- The requests that reach the tunnel manager, and the states that they lead to. The manager's mutex
-- makes each request one step (manager/internal/wgs2s/manager.go).
pub mod Invariant
use vpn_pack.Common.{ℕ, String, List, [], ◌∷◌, ◌≡◌}
use vpn_pack.Wgs2s.Config.{TunnelConfig}
use vpn_pack.Wgs2s.Env.{Env}
use vpn_pack.Wgs2s.Tunnel.{St}
use vpn_pack.Wgs2s.Manager.Create.{create_tunnel}
use vpn_pack.Wgs2s.Manager.Update.{update_tunnel}
use vpn_pack.Wgs2s.Manager.Toggle.{delete_tunnel, enable_tunnel, disable_tunnel}
use vpn_pack.Wgs2s.Manager.Restore.{restore_all}

pub data Request : Type 0 where
  create : TunnelConfig → String → Request
  update : String → TunnelConfig → Request
  delete enable disable : String → Request
  restore : Request

module _ (E : Env) where
  -- The state after a request, whatever it answers.
  unfoldable pub handle : Request → St E → St E
  handle (create cfg private_key) s = (create_tunnel E cfg private_key s).1
  handle (update id updates) s = (update_tunnel E id updates s).1
  handle (delete id) s = (delete_tunnel E id s).1
  handle (enable id) s = (enable_tunnel E id s).1
  handle (disable id) s = (disable_tunnel E id s).1
  handle restore s = (restore_all E s).1

  -- The states that requests lead to. Between two of them the world outside may change.
  pub data Reachable : St E → St E → Type 0 where
    start : {s : St E} → Reachable s s
    step : {s t : St E} → Reachable s t → (r : Request) → Reachable s (handle r t)
    outside : {s t : St E} → Reachable s t → (w : E.World) → Reachable s (record t { world = w })
