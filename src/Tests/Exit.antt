-- ===== src/Tests/Exit.antt =====
-- The exit node's rules.
use vpn_pack.Common.{
  ◌≡◌, refl, true, false, none, some, List, [], ◌∷◌, ◌++◌, map, length, ⊤, All, Result, ok, err,
  pure, string_eq, nat_eq,
}
use vpn_pack.Common.Int.{pos}
use vpn_pack.Ops.{Op}
use vpn_pack.Service.ExitNode.{all, selective, ExitNodePolicy, ExitNodeClient, ExitEnv, ExitState}
use vpn_pack.Service.ExitNode.Rules.{
  build_desired_rules, validate_exit_node_policy, check_clients, family_for_addr,
  is_catch_all_prefix,
}
use vpn_pack.Service.ExitNode.Priorities.{
  Within, Pairwise, build_desired_rules-Apart, build_desired_rules-length,
}
use vpn_pack.Service.ExitNode.Commands.{St}
use vpn_pack.Service.ExitNode.Apply.{masquerade_ops, build_apply_ops, client_ops}
use vpn_pack.Service.ExitNode.Plan.{step_of, Adds, build_apply_ops-all, build_apply_ops-selective}

-- A host with one bridge, where every text is an IPv4 prefix of 32 bits.
abbrev host : ExitEnv
host = record {
  World = ⊤;
  run = λ name args w. (("", none), w);
  set_exit_node_policy = λ p. pure tt;
  discover_bridges = λ w. ok ("br0" ∷ []);
  parse_prefix = λ s. some (record { is_4 = true; is_6 = false; bits = pos 32; addr_string = s });
  parse_addr = λ s. none;
  error_text = λ e. "";
  to_lower = λ s. s;
  trim_space = λ s. s;
  atoi = λ s. none;
  lines = λ s. [];
}

abbrev idle : ExitState ⊤
idle = record { world = tt; v6_installed = false }

abbrev laptop : ExitNodeClient
laptop = record { ip = "192.168.1.5/32"; label = "laptop" }

abbrev everyone : ExitNodePolicy
everyone = record { mode = all; clients = [] }

abbrev one_client : ExitNodePolicy
one_client = record { mode = selective; clients = laptop ∷ [] }

build_desired_rules-Apart_example :
    All (Within 5280) (build_desired_rules host everyone ("br0" ∷ "br1" ∷ []))
    × Pairwise (build_desired_rules host everyone ("br0" ∷ "br1" ∷ []))
build_desired_rules-Apart_example = build_desired_rules-Apart host everyone ("br0" ∷ "br1" ∷ [])

accepted : validate_exit_node_policy host one_client ≡ ok tt
unfolding validate_exit_node_policy check_clients family_for_addr is_catch_all_prefix string_eq
accepted = refl

build_desired_rules-length_example : length (build_desired_rules host one_client []) ≡ 1
build_desired_rules-length_example = build_desired_rules-length host one_client [] refl accepted

-- The steps that are built.
abbrev steps_of : Result (List (Op (St host))) → List (Op (St host))
steps_of (ok steps) = steps
steps_of (err e) = []

built_all : build_apply_ops host everyone idle ≡ ok (steps_of (build_apply_ops host everyone idle))
unfolding build_apply_ops
built_all = refl

build_apply_ops-all_example :
    steps_of (build_apply_ops host everyone idle)
    ≡ map (step_of host) (build_desired_rules host everyone ("br0" ∷ []))
      ++ masquerade_ops host everyone
build_apply_ops-all_example =
    build_apply_ops-all host everyone idle ("br0" ∷ [])
      (steps_of (build_apply_ops host everyone idle)) refl refl built_all

built_selective :
    build_apply_ops host one_client idle ≡ ok (steps_of (build_apply_ops host one_client idle))
unfolding build_apply_ops client_ops family_for_addr is_catch_all_prefix string_eq
built_selective = refl

build_apply_ops-selective_example :
    (adding : List (Op (St host))) × (steps_of (build_apply_ops host one_client idle)
      ≡ adding ++ masquerade_ops host one_client)
    × Adds host adding (build_desired_rules host one_client [])
build_apply_ops-selective_example =
    build_apply_ops-selective host one_client laptop [] idle []
      (steps_of (build_apply_ops host one_client idle)) refl refl built_selective
