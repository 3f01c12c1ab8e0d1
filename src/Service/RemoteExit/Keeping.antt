-- ===== src/Service/RemoteExit/Keeping.antt =====
-- Which calls of the remote exit service leave the remote exit node of the manifest alone.
use vpn_pack.Common.{
  if◌then◌else◌, ◌≡◌, refl, ap, Option, some, Bool, true, false, [], ◌∷◌, All, Result, ok, ⊤,
}
use vpn_pack.Domain.{RemoteExitNode, ExitNodePolicy}
use vpn_pack.State.Manifest.Edit.{
  set_remote_exit_node, set_advertise_exit_node, set_exit_node_policy,
}
use vpn_pack.State.Manifest.Edits.{Store as Asked, view-change}
use vpn_pack.Ops.{Op, Context}
use vpn_pack.Ops.Keeping.{Keeps, KeepsStep, append-All}
use vpn_pack.Service.ExitNode.Commands.{cleanup}
use vpn_pack.Service.ExitNode.Keeping.{cleanup-Keeps, apply_locked-Keeps}
use vpn_pack.Service.RemoteExit.{RemoteEnv, Store, exit_env}
use vpn_pack.Service.RemoteExit.Enable.{
  Plan, with_rules, later_steps, clear_advertise_step, rules_step, prefs_step,
}
use vpn_pack.Service.RemoteExit.Disable.{clean_rules}

module _ (R : RemoteEnv) where
  abbrev pub remote_of : Store R → Option RemoteExitNode
  remote_of s = s.manifest.remote_exit_node

  pub set_remote_exit_node_sets :
      (r : Option RemoteExitNode) (s : Store R) → remote_of (set_remote_exit_node R.env r s).1 ≡ r
  unfolding set_remote_exit_node
  set_remote_exit_node_sets r s =
      ap (λ (t : Asked). t.remote) (view-change R.env (λ m. record m { remote_exit_node = r }) s)

  set_advertise-Keeps : (b : Bool) → Keeps remote_of (set_advertise_exit_node R.env b)
  unfolding set_advertise_exit_node
  set_advertise-Keeps b s =
      ap (λ (t : Asked). t.remote)
        (view-change R.env (λ m. record m { advertise_exit_node_enabled = b }) s)

  set_policy-Keeps : (p : ExitNodePolicy) → Keeps remote_of (set_exit_node_policy R.env p)
  unfolding set_exit_node_policy
  set_policy-Keeps p s =
      ap (λ (t : Asked). t.remote)
        (view-change R.env (λ m. record m { exit_node_policy = some p }) s)

  rules_keep : (inner : Context) (p : Plan R) → KeepsStep remote_of (rules_step R inner p)
  unfolding rules_step
  rules_keep inner p = (
    (λ s.
        apply_locked-Keeps (exit_env R) remote_of (λ name args w. refl) set_policy-Keeps inner
          p.policy (record { world = s; v6_installed = false })),
    (λ s.
        cleanup-Keeps (exit_env R) remote_of (λ name args w. refl) set_policy-Keeps
          (record { world = s; v6_installed = false })),
  )

  pub clean_rules-Keeps : Keeps remote_of (clean_rules R)
  unfolding clean_rules
  clean_rules-Keeps s =
      elim R.has_rules
        as (λ b.
          remote_of
            (elim b as (λ _. Result ⊤ × Store R) [
              | true ↦ with_rules R (cleanup (exit_env R)) s
              | false ↦ (ok tt, s)
            ]).1
          ≡ remote_of s) [
            | true ↦
                cleanup-Keeps (exit_env R) remote_of (λ name args w. refl) set_policy-Keeps
                  (record { world = s; v6_installed = false })
            | false ↦ refl
          ]

  optional :
      (b : Bool) (step : Op (Store R))
      → KeepsStep remote_of step
      → All (KeepsStep remote_of) (if b then step ∷ [] else [])
  optional true step h = (h, tt)
  optional false step h = tt

  pub later_steps_keep :
      (inner : Context) (p : Plan R) → All (KeepsStep remote_of) (later_steps R inner p)
  unfolding later_steps clear_advertise_step prefs_step
  later_steps_keep inner p =
      append-All remote_of _ _
        (optional p.was_advertising (clear_advertise_step R)
          (set_advertise-Keeps false, set_advertise-Keeps true))
        (append-All remote_of _ _ (optional R.has_rules (rules_step R inner p) (rules_keep inner p))
          (((λ s. refl), (λ s. refl)), tt))
