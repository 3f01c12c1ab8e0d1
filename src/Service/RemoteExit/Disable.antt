-- ===== src/Service/RemoteExit/Disable.antt =====
-- `Disable`, `SyncManifestFromTailscale` and `GetAvailable` of manager/service/remote_exit.go, and
-- `restoreExitNodeRules` of manager/watcher_firewall.go.
use vpn_pack.Common.{
  String, true, false, Option, none, some, List, [], ◌∷◌, ◌++◌, ⊤, Error, text, wrap, join_all,
  Result, ok, err, Action, logged, wrapping, ◌>>=◌, ◌>>◌, ◌==◌, string_eq, if◌then◌else◌,
}
use vpn_pack.Domain.{all, unset, ExitNodePolicy, RemoteExitNode}
use vpn_pack.State.Manifest.Edit.{on_world, set_remote_exit_node, is_on}
use vpn_pack.State.Manifest.Read.{get_remote_exit_node}
use vpn_pack.Ops.{Context}
use vpn_pack.Service.ExitNode.Commands.{cleanup}
use vpn_pack.Service.ExitNode.Apply.{reconcile}
use vpn_pack.Service.Errors.{conflict_error}
use vpn_pack.Service.RemoteExit.{
  MaskedPrefs, ExitNodePeer, RemoteExitNodeStatus, RemoteEnv, Store, exit_env, Service,
}
use vpn_pack.Service.RemoteExit.Status.{filter_exit_node_peers, build_remote_exit_node_status}
use vpn_pack.Service.RemoteExit.Enable.{or_local_api_error, with_rules}

abbrev pub err_partial_disable : Error
err_partial_disable = text "exit-node disabled with cleanup errors"

module _ (R : RemoteEnv) where
  unfoldable pub get_available : Action (Store R) (List ExitNodePeer × Option RemoteExitNodeStatus)
  unfolding filter_exit_node_peers build_remote_exit_node_status
  get_available = do
    st ← or_local_api_error R (on_world R.env R.status)
    (λ s. (
      ok (
        filter_exit_node_peers st.peers,
        build_remote_exit_node_status st (get_remote_exit_node s.manifest),
      ),
      s,
    ))

  abbrev pub no_exit_node : MaskedPrefs
  no_exit_node = record { exit_node_id = ""; allow_lan_access = false; advertise_routes = none }

  -- The rules, where there is an exit node service.
  unfoldable pub clean_rules : Action (Store R) ⊤
  clean_rules s = elim R.has_rules [
    | true ↦ with_rules R (cleanup (exit_env R)) s
    | false ↦ (ok tt, s)
  ]

  -- An error that is kept for later.
  abbrev pub kept : String → Result ⊤ → List Error
  kept msg r = elim r [ ok _ ↦ [] | err e ↦ wrap msg e ∷ [] ]

  -- The part behind the preferences.
  unfoldable pub disable_local : Action (Store R) ⊤
  unfolding clean_rules
  disable_local s =
      let (cleaned, s') = clean_rules s in
      let (cleared, s'') = set_remote_exit_node R.env none s' in
      (
        elim (kept "cleanup local rules" cleaned ++ kept "clear manifest" cleared) [
          | [] ↦ ok tt
          | e ∷ es ↦ err (join_all err_partial_disable (e ∷ es))
        ],
        s'',
      )

  unfoldable pub disable : Action (Service (Store R)) ⊤
  unfolding disable_local conflict_error
  disable svc =
      let whole : Action (Store R) ⊤ =
        or_local_api_error R (on_world R.env (R.edit_prefs no_exit_node)) >> disable_local in
      let (r, s) = whole svc.store in
      elim svc.locked [
        | true ↦ (err (conflict_error "another exit-node operation is in progress"), svc)
        | false ↦ (r, record svc { applying = false; store = s })
      ]

  -- The manifest after Tailscale's exit node is known.
  unfoldable pub follow : String → Option RemoteExitNode → Action (Store R) ⊤
  unfolding clean_rules
  follow id none s =
      if id == ""
      then (ok tt, s)
      else set_remote_exit_node R.env (some (record { peer_id = id; mode = all; clients = [] })) s
  follow id (some rem) s =
      if id == ""
      then (logged clean_rules >> set_remote_exit_node R.env none) s
      else if rem.peer_id == id
      then (ok tt, s)
      else set_remote_exit_node R.env (some (record rem { peer_id = id })) s

  unfoldable pub sync_manifest : Action (Service (Store R)) ⊤
  unfolding follow
  sync_manifest svc =
      let whole : Action (Store R) ⊤ = (do
        prefs ← wrapping "get prefs" (on_world R.env R.get_prefs)
        (λ s. follow prefs.exit_node_id (get_remote_exit_node s.manifest) s)) in
      let (r, s) = whole svc.store in
      elim svc.applying [ true ↦ (ok tt, svc) | false ↦ (r, record svc { store = s }) ]

  -- The policy that the rules are reconciled with; Go's zero value has the empty mode.
  abbrev pub policy_of : Option RemoteExitNode → ExitNodePolicy
  policy_of none = record { mode = unset; clients = [] }
  policy_of (some rem) =
      if is_on rem.mode
      then record { mode = rem.mode; clients = rem.clients }
      else record { mode = unset; clients = [] }

  unfoldable pub restore_exit_node_rules : Context → Service (Store R) → Service (Store R)
  unfolding sync_manifest
  restore_exit_node_rules ctx svc =
      let svc' = (sync_manifest svc).1 in
      let policy = policy_of (get_remote_exit_node svc'.store.manifest) in
      let s' = (with_rules R (reconcile (exit_env R) ctx policy) svc'.store).1 in
      elim R.has_rules [ true ↦ record svc' { store = s' } | false ↦ svc ]
