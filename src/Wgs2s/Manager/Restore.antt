-- ===== src/Wgs2s/Manager/Restore.antt =====
-- `RestoreAll` and `removeOrphanInterfaces` of manager/internal/wgs2s/manager.go.
use vpn_pack.Common.{
  String, true, false, List, [], ◌∷◌, ⊤, Error, join_all, ok, err, Action, contains, string_eq,
  ◌>>=◌,
}
use vpn_pack.Wgs2s.Config.{TunnelConfig}
use vpn_pack.Wgs2s.Env.{Env, IfaceEntry, outside}
use vpn_pack.Wgs2s.Names.{names}
use vpn_pack.Wgs2s.Keys.{load_private_key}
use vpn_pack.Wgs2s.Device.{list_interfaces_by_prefix}
use vpn_pack.Wgs2s.Tunnel.{St, bring_up}

module _ (E : Env) where
  -- The loop over the kernel's links; a link that cannot be deleted is skipped.
  unfoldable pub remove_orphans_from : List String → List IfaceEntry → E.World → E.World
  remove_orphans_from configured [] w = w
  remove_orphans_from configured (i ∷ is) w =
      let gone = (E.link_delete i.idx w).1 in
      remove_orphans_from configured is
        (elim (contains i.name configured) [ true ↦ w | false ↦ gone ])

  unfoldable pub remove_orphan_interfaces : St E → St E
  unfolding remove_orphans_from
  remove_orphan_interfaces s = record s {
    world =
        remove_orphans_from (names s.tunnels) (list_interfaces_by_prefix E "wg-s2s" s.world)
          s.world;
  }

  unfoldable pub restore_one : TunnelConfig → Action (St E) ⊤
  restore_one cfg = do key ← outside (load_private_key E cfg.id); bring_up E cfg key

  -- The loop over the tunnels, with the errors so far; one that fails does not stop it.
  unfoldable pub restore_from : List TunnelConfig → St E → List Error × St E
  restore_from [] s = ([], s)
  restore_from (cfg ∷ cfgs) s =
      let (r, up) = restore_one cfg s in
      let here : List Error = elim cfg.enabled [
        | true ↦ elim r [ ok _ ↦ [] | err e ↦ e ∷ [] ]
        | false ↦ []
      ] in
      let (errs, s') = restore_from cfgs (elim cfg.enabled [ true ↦ up | false ↦ s ]) in
      (elim here [ [] ↦ errs | e ∷ _ ↦ e ∷ errs ], s')

  unfoldable pub restore_all : Action (St E) ⊤
  unfolding remove_orphan_interfaces restore_from
  restore_all s =
      let t = remove_orphan_interfaces s in
      let (errs, s') = restore_from t.tunnels t in
      (elim errs [ [] ↦ ok tt | e ∷ es ↦ err (join_all e es) ], s')
