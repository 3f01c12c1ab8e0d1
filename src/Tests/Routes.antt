-- ===== src/Tests/Routes.antt =====
-- Routes that are claimed and released.
use vpn_pack.Common.{◌≡◌, ◌≢◌, ◌↔◌, String, true, false, List, [], ◌∷◌, length, ◌==◌, nat_eq}
use vpn_pack.Common.Int.{pos}
use vpn_pack.Common.Map.{lookup}
use vpn_pack.Wgs2s.RouteRefs.{route_key, add, remove, owns}
use vpn_pack.Wgs2s.RouteRefs.Laws.{IsValid}
use vpn_pack.Wgs2s.RouteRefs.Refinement.{
  Call, call_add, call_remove, run_calls, owners_after, owns-run_calls, add_first, remove_last,
}
use vpn_pack.Wgs2s.Routes.{claim_routes, release_routes}
use vpn_pack.Wgs2s.Routes.Ownership.{Owning, Claimed, claim_routes-Claimed, release_routes-Owning}
use vpn_pack.Tests.World.{one_net, calm, holding}

no_routes-IsValid : IsValid []
unfolding lookup
no_routes-IsValid k = tt

-- Two tunnels own a route, and one of them gives it up.
abbrev calls : List Call
calls =
    call_remove "10.0.0.0/24" "b" (pos 100)
    ∷ call_add "10.0.0.0/24" "b" 8 (pos 100)
    ∷ call_add "10.0.0.0/24" "a" 7 (pos 100)
    ∷ []

owns-run_calls_example :
    owns one_net "10.0.0.0/24" "a" (pos 100) (run_calls one_net calls)
    ≡ owners_after one_net calls (route_key one_net "10.0.0.0/24" (pos 100)) "a"
owns-run_calls_example = owns-run_calls one_net calls "10.0.0.0/24" "a" (pos 100)

add_first_example :
    ((add one_net "10.0.0.0/24" "b" 8 (pos 100) (run_calls one_net calls)).0 ≡ true) ↔ (
      (j : String)
      → j ≢ "b"
      → owners_after one_net calls (route_key one_net "10.0.0.0/24" (pos 100)) j ≡ false)
add_first_example = add_first one_net calls "10.0.0.0/24" "b" 8 (pos 100)

remove_last_example :
    ((length (remove one_net "10.0.0.0/24" "a" (pos 100) (run_calls one_net calls)).0 == 0) ≡ true)
    ↔ ((j : String)
        → j ≢ "a"
        → owners_after one_net calls (route_key one_net "10.0.0.0/24" (pos 100)) j ≡ false)
remove_last_example = remove_last one_net calls "10.0.0.0/24" "a" (pos 100)

claim_routes_example :
    Claimed calm "a"
      (pos 100)
      7
      []
      ("10.0.0.0/24" ∷ [])
      (holding [])
      (claim_routes calm "a" 7 ("10.0.0.0/24" ∷ []) (pos 100) (holding []))
claim_routes_example =
    claim_routes-Claimed calm "a" (pos 100) 7 ("10.0.0.0/24" ∷ []) (holding []) no_routes-IsValid

release_routes_example :
    IsValid (release_routes calm "a" 7 ("10.0.0.0/24" ∷ []) (pos 100) (holding [])).refs
    × Owning calm "a"
        (pos 100)
        false
        ("10.0.0.0/24" ∷ [])
        []
        (release_routes calm "a" 7 ("10.0.0.0/24" ∷ []) (pos 100) (holding [])).refs
release_routes_example =
    release_routes-Owning calm "a" (pos 100) 7 ("10.0.0.0/24" ∷ []) (holding []) no_routes-IsValid
