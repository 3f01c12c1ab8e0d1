-- ===== src/Service/RemoteExit/Enable.antt =====
-- `Enable` of manager/service/remote_exit.go. The nested saga of the rules asks the context for
-- itself: its answers are the second context.
use Prim.Native.String.{◌++◌ as ◌<>◌}
use vpn_pack.Common.{
  String, Bool, true, false, not, ◌&&◌, Option, none, some, List, [], ◌∷◌, ◌++◌, ⊤, Error, Result,
  ok, err, Action, pure, ◌>>=◌, ◌>>◌, ◌==◌, string_eq, if◌then◌else◌,
}
use vpn_pack.Domain.{
  ExitNodeMode, unset, off, all, selective, unknown, ExitNodePolicy, RemoteExitNode,
}
use vpn_pack.State.Manifest.Edit.{on_world, set_remote_exit_node, set_advertise_exit_node}
use vpn_pack.State.Manifest.Read.{get_remote_exit_node}
use vpn_pack.Ops.{Op, Context, run}
use vpn_pack.Service.ExitNode.{ExitState}
use vpn_pack.Service.ExitNode.Rules.{validate_exit_node_policy}
use vpn_pack.Service.ExitNode.Commands.{cleanup}
use vpn_pack.Service.ExitNode.Apply.{apply_locked}
use vpn_pack.Service.Errors.{
  validation_error, not_found_error, conflict_error, upstream_error, humanize_local_api_error,
}
use vpn_pack.Service.RemoteExit.{
  Service, Prefs, MaskedPrefs, EnableRequest, EnableResult, RemoteEnv, Store, exit_env,
}
use vpn_pack.Service.RemoteExit.Status.{find_peer_by_id, filter_non_exit_routes, or_all}

-- `mode == ExitNodeAll` and `mode == ExitNodeSelective`
abbrev pub is_all : ExitNodeMode → Bool
is_all all = true
is_all unset = false
is_all off = false
is_all selective = false
is_all (unknown _) = false

abbrev pub is_selective : ExitNodeMode → Bool
is_selective selective = true
is_selective unset = false
is_selective off = false
is_selective all = false
is_selective (unknown _) = false

abbrev pub routed : String → EnableResult
routed host = record {
  is_done = true;
  confirm_required = false;
  message = "Traffic routed through " <> (host <> ".");
}

abbrev all_traffic : String → String
all_traffic host =
    "All internet traffic from ALL clients behind this router will be routed through "
    <> (host <> ". Direct internet access will be lost.")

-- Whether the request has to be confirmed first, and the question.
unfoldable pub question : EnableRequest → ExitNodeMode → String → Bool → Option String
question req mode host was_advertising =
    if was_advertising && not req.confirm
    then some (
        "Advertise as Exit Node will be disabled. "
        <> (if is_all mode
            then all_traffic host
            else "Selected clients will be routed through " <> (host <> ".")))
    else if not was_advertising && (is_all mode && not req.confirm)
    then some (all_traffic host)
    else none

module _ (R : RemoteEnv) where
  -- An error of Tailscale's local API.
  unfoldable pub local_api_error : Error → Error
  unfolding upstream_error humanize_local_api_error
  local_api_error e = upstream_error (humanize_local_api_error (R.to_lower (R.error_text e))) e

  abbrev pub or_local_api_error : {A : Type 0} → Action (Store R) A → Action (Store R) A
  or_local_api_error f s =
      let (r, s') = f s in (elim r [ ok a ↦ ok a | err e ↦ err (local_api_error e) ], s')

  -- A call of the exit node service, whose own state lives for one call.
  abbrev pub with_rules : Action (ExitState (Store R)) ⊤ → Action (Store R) ⊤
  with_rules f s = let (r, t) = f (record { world = s; v6_installed = false }) in (r, t.world)

  -- What `Enable` has found out before it changes anything.
  pub record Plan : Type 0 where
    pub host_name : String
    pub policy : ExitNodePolicy
    pub new_remote : RemoteExitNode
    pub prefs : Prefs
    pub was_advertising : Bool

  unfoldable pub wanted_prefs : Plan → MaskedPrefs
  unfolding filter_non_exit_routes
  wanted_prefs p = record {
    exit_node_id = p.new_remote.peer_id;
    allow_lan_access = true;
    advertise_routes =
        if p.was_advertising then some (filter_non_exit_routes p.prefs.advertise_routes) else none;
  }

  unfoldable pub restore_prefs : Plan → MaskedPrefs
  restore_prefs p = record {
    exit_node_id = p.prefs.exit_node_id;
    allow_lan_access = p.prefs.allow_lan_access;
    advertise_routes = if p.was_advertising then some p.prefs.advertise_routes else none;
  }

  unfoldable pub persist_step : Option RemoteExitNode → Plan → Op (Store R)
  persist_step prev p = record {
    name = "persist manifest with new peer";
    do_step = set_remote_exit_node R.env (some p.new_remote);
    undo = set_remote_exit_node R.env prev;
  }

  unfoldable pub clear_advertise_step : Op (Store R)
  clear_advertise_step = record {
    name = "clear advertise-exit-node in manifest";
    do_step = set_advertise_exit_node R.env false;
    undo = set_advertise_exit_node R.env true;
  }

  unfoldable pub rules_step : Context → Plan → Op (Store R)
  rules_step inner p = record {
    name = "apply local exit-node rules";
    do_step = with_rules (apply_locked (exit_env R) inner p.policy);
    undo = with_rules (cleanup (exit_env R));
  }

  unfoldable pub prefs_step : Plan → Op (Store R)
  unfolding wanted_prefs restore_prefs
  prefs_step p = record {
    name = "set Tailscale prefs";
    do_step = on_world R.env (R.edit_prefs (wanted_prefs p));
    undo = on_world R.env (R.edit_prefs (restore_prefs p));
  }

  -- The steps behind the first one.
  unfoldable pub later_steps : Context → Plan → List (Op (Store R))
  unfolding clear_advertise_step rules_step prefs_step
  later_steps inner p =
      (if p.was_advertising then clear_advertise_step ∷ [] else [])
      ++ ((if R.has_rules then rules_step inner p ∷ [] else []) ++ (prefs_step p ∷ []))

  -- The part of `Enable` between `applying.Store(true)` and its end.
  unfoldable pub carry_out : Context → Context → Plan → Action (Store R) EnableResult
  unfolding persist_step later_steps
  carry_out ctx inner p s =
      let steps = persist_step (get_remote_exit_node s.manifest) p ∷ later_steps inner p in
      let (r, s') = run ctx steps s in
      (elim r [ ok _ ↦ ok (routed p.host_name) | err e ↦ err (local_api_error e) ], s')

  abbrev pub ask : String → Result EnableResult
  ask msg = ok (record { is_done = false; confirm_required = true; message = msg })

  -- The checks: a question, or the plan.
  unfoldable pub prepare : EnableRequest → Action (Store R) (Option String × Plan)
  unfolding question find_peer_by_id or_all validation_error not_found_error
  prepare req = do
    st ← or_local_api_error (on_world R.env R.status)
    peer ← (λ s. (
      elim (find_peer_by_id st.peers req.peer_id) [
        | none ↦ err (not_found_error "peer ")
        | some p ↦ if p.exit_node_option then ok p else err (validation_error "peer ")
      ],
      s,
    ))
    prefs ← or_local_api_error (on_world R.env R.get_prefs)
    let mode = or_all req.mode
    let was_advertising = R.advertises_exit_node prefs
    let policy : ExitNodePolicy = record { mode = mode; clients = req.clients }
    let asked = question req mode peer.host_name was_advertising
    (λ s. (
      elim asked [
        | some _ ↦ ok tt
        | none ↦ if is_selective mode then validate_exit_node_policy (exit_env R) policy else ok tt
      ],
      s,
    ))
    pure (
      asked,
      record {
        host_name = peer.host_name;
        policy = policy;
        new_remote = record { peer_id = req.peer_id; mode = mode; clients = req.clients };
        prefs = prefs;
        was_advertising = was_advertising;
      },
    )

  unfoldable pub enable :
      Context → Context → EnableRequest → Action (Service (Store R)) EnableResult
  unfolding prepare carry_out conflict_error validation_error
  enable ctx inner req svc =
      let (found, s) = prepare req svc.store in
      let decided : Result EnableResult × Service (Store R) = elim found [
        | err e ↦ (err e, record svc { store = s })
        | ok (some msg, _) ↦ (ask msg, record svc { store = s })
        | ok (none, plan) ↦
            let (r, s') = carry_out ctx inner plan s in
            (r, record svc { applying = false; store = s' })
      ] in
      if req.peer_id == ""
      then (err (validation_error "peerId is required"), svc)
      else elim svc.locked [
        | true ↦ (err (conflict_error "another exit-node operation is in progress"), svc)
        | false ↦ decided
      ]
