-- ===== src/Wgs2s/RouteRefs.antt =====
-- manager/internal/wgs2s/route_refs.go: which tunnels own a kernel route. The map's key
-- `"%s@%d"` of a prefix and a metric is the pair of the two. A method that changes the counter
-- returns the new one.
pub mod Owners
pub mod Laws
pub mod Refinement
use vpn_pack.Common.{
  ℕ, ◌+◌, ◌≡◌, String, Bool, true, false, ◌||◌, Option, none, some, List, [], ◌∷◌, ◌++◌, length,
  ◌==◌, string_eq, nat_eq, Eq, if◌then◌else◌,
}
use vpn_pack.Common.Int.{ℤ, ℤ-discrete}
use vpn_pack.Common.Map.{Map, lookup, insert, erase}
use vpn_pack.Net.{NetText}

pub record RouteOwner : Type 0 where
  pub tunnel_id : String
  pub if_index : ℕ  -- uint32

abbrev pub RouteKey : Type 0
RouteKey = String × ℤ

String-discrete : Discrete String
unfolding string_eq
String-discrete = string_eq.dec

instance unfoldable pub key_eq : Eq RouteKey
unfolding String-discrete ℤ-discrete
key_eq = record { dec = hlevel (String-discrete, ℤ-discrete) }

-- `owners map[string][]routeOwner`
abbrev pub RouteRefs : Type 0
RouteRefs = Map RouteKey (List RouteOwner)

unfoldable pub new_route_refs : RouteRefs
new_route_refs = []

-- `rc.owners[key]`, which is nil for a key that is not there
unfoldable pub owners_of : RouteKey → RouteRefs → List RouteOwner
unfolding lookup
owners_of key rc = elim (lookup key rc) [ none ↦ [] | some os ↦ os ]

-- The loop of `owns`.
unfoldable pub has_owner : String → List RouteOwner → Bool
has_owner id [] = false
has_owner id (o ∷ os) = o.tunnel_id == id || has_owner id os

-- The loop of `add`: the first entry of the tunnel takes the new index, if there is one.
unfoldable pub update_owner : String → ℕ → List RouteOwner → Option (List RouteOwner)
update_owner id idx [] = none
update_owner id idx (o ∷ os) =
    let rest = update_owner id idx os in
    if o.tunnel_id == id
    then some (record o { if_index = idx } ∷ os)
    else elim rest [ none ↦ none | some r ↦ some (o ∷ r) ]

-- The loop of `remove`: the first entry of the tunnel goes, if there is one.
unfoldable pub drop_owner : String → List RouteOwner → Option (List RouteOwner)
drop_owner id [] = none
drop_owner id (o ∷ os) =
    let rest = drop_owner id os in
    if o.tunnel_id == id then some os else elim rest [ none ↦ none | some r ↦ some (o ∷ r) ]

unfoldable pub add_key : RouteKey → String → ℕ → RouteRefs → Bool × RouteRefs
unfolding owners_of update_owner insert nat_eq
add_key key id idx rc =
    let os = owners_of key rc in
    elim (update_owner id idx os) [
      | some us ↦ (length us == 1, insert key us rc)
      | none ↦
          (length os == 0, insert key (os ++ (record { tunnel_id = id; if_index = idx } ∷ [])) rc)
    ]

unfoldable pub remove_key : RouteKey → String → RouteRefs → List RouteOwner × RouteRefs
unfolding owners_of drop_owner insert erase
remove_key key id rc =
    let os = owners_of key rc in
    elim (drop_owner id os) [
      | none ↦ (os, rc)
      | some [] ↦ ([], erase key rc)
      | some (r ∷ rs) ↦ (r ∷ rs, insert key (r ∷ rs) rc)
    ]

module _ (net : NetText) where
  unfoldable pub normalize_cidr : String → String
  normalize_cidr cidr = elim (net.parse_cidr cidr) [
    | none ↦ cidr
    | some (_, ip_net) ↦ net.to_string ip_net
  ]

  unfoldable pub route_key : String → ℤ → RouteKey
  unfolding normalize_cidr
  route_key cidr metric = (normalize_cidr cidr, metric)

  -- `add`; the answer is whether the tunnel is the only owner.
  unfoldable pub add : String → String → ℕ → ℤ → RouteRefs → Bool × RouteRefs
  unfolding route_key add_key
  add cidr id idx metric rc = add_key (route_key cidr metric) id idx rc

  unfoldable pub owns : String → String → ℤ → RouteRefs → Bool
  unfolding route_key owners_of has_owner
  owns cidr id metric rc = has_owner id (owners_of (route_key cidr metric) rc)

  -- `remove`; the answer is the remaining owners.
  unfoldable pub remove : String → String → ℤ → RouteRefs → List RouteOwner × RouteRefs
  unfolding route_key remove_key
  remove cidr id metric rc = remove_key (route_key cidr metric) id rc
