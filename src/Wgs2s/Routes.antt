-- ===== src/Wgs2s/Routes.antt =====
-- The routes of a tunnel: manager/internal/wgs2s/routes.go, and `claimRoutes`, `releaseRoutes`
-- and `unregisterRoutes` of manager.go. Errors that are only logged leave no trace.
pub mod Claims
pub mod Ownership
use vpn_pack.Common.{
  ℕ, ◌%◌, String, Bool, true, false, not, ◌||◌, Option, none, some, List, [], ◌∷◌, ◌++◌, ⊤, Error,
  text, wrap, Errno, eexist, is_errno, Result, ok, err, Action, pure, ◌>>◌, if◌then◌else◌,
}
use vpn_pack.Common.Int.{ℤ, to_uint32}
use vpn_pack.Net.{Ip, IpNet, NetText}
use vpn_pack.Wgs2s.RouteRefs.{RouteOwner, RouteRefs, add, remove}
use vpn_pack.Wgs2s.Env.{Env, RouteMessage, State}

-- AF_INET and AF_INET6
abbrev pub af_inet : ℕ
af_inet = 2

abbrev pub af_inet6 : ℕ
af_inet6 = 10

unfoldable pub build_route_message : NetText → String → ℕ → ℤ → Result RouteMessage
build_route_message net cidr if_index metric = elim (net.parse_cidr cidr) [
  | none ↦ err (wrap "parse route CIDR" (text "invalid CIDR address"))
  | some (_, ip_net) ↦ ok (record {
    family = if ip_net.ip.is_v4 then af_inet else af_inet6;
    dst_length = ip_net.ones % 256;
    table = 254;
    protocol = 4;
    scope = 253;
    route_type = 1;
    dst = ip_net.ip;
    out_iface = if_index;
    priority = to_uint32 metric;
  })
]

module _ (E : Env) (tunnel_id : String) where
  -- `unregisterRoutes`
  unfoldable pub unregister_routes : List String → ℤ → RouteRefs → RouteRefs
  unregister_routes [] metric rc = rc
  unregister_routes (cidr ∷ cidrs) metric rc =
      unregister_routes cidrs metric (remove E.net cidr tunnel_id metric rc).1

  module _ (if_index : ℕ) where
    -- One round of `claimRoutes`; `known` is what it has registered, this prefix included.
    unfoldable pub claim_one : List String → String → ℤ → Action (State E.World) ⊤
    unfolding unregister_routes
    claim_one known cidr metric s =
        let (first_owner, rc) = add E.net cidr tunnel_id if_index metric s.refs in
        elim (build_route_message E.net cidr if_index metric) [
          | err e ↦ (err e, record s { refs = unregister_routes known metric rc })
          | ok msg ↦
              let (r, w) = E.route_add msg s.world in
              elim r [
                | ok _ ↦ (ok tt, record s { refs = rc; world = w })
                | err e ↦
                    if not first_owner || is_errno eexist e
                    then (ok tt, record s { refs = rc; world = w })
                    else (
                      err (wrap "add route" e),
                      record s { refs = unregister_routes known metric rc; world = w },
                    )
              ]
        ]

    -- The loop of `claimRoutes`; `registered` is what it has registered so far.
    unfoldable pub claim_from : List String → List String → ℤ → Action (State E.World) ⊤
    claim_from registered [] metric = pure tt
    claim_from registered (cidr ∷ cidrs) metric =
        let known = registered ++ (cidr ∷ []) in
        claim_one known cidr metric >> claim_from known cidrs metric

    unfoldable pub claim_routes : List String → ℤ → Action (State E.World) ⊤
    unfolding claim_from
    claim_routes = claim_from []

    -- The kernel's side of one released route, by the owners that remain.
    unfoldable pub release_kernel : String → ℤ → List RouteOwner → E.World → E.World
    release_kernel cidr metric [] w = elim (build_route_message E.net cidr if_index metric) [
      | err _ ↦ w
      | ok msg ↦ (E.route_delete msg w).1
    ]
    release_kernel cidr metric (o ∷ _) w = elim (build_route_message E.net cidr o.if_index metric) [
      | err _ ↦ w
      | ok msg ↦ (E.route_replace msg w).1
    ]

    unfoldable pub release_routes : List String → ℤ → State E.World → State E.World
    unfolding release_kernel
    release_routes [] metric s = s
    release_routes (cidr ∷ cidrs) metric s =
        let (remaining, rc) = remove E.net cidr tunnel_id metric s.refs in
        release_routes cidrs metric
          (record s { refs = rc; world = release_kernel cidr metric remaining s.world })
