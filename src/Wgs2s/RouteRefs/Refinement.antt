-- ===== src/Wgs2s/RouteRefs/Refinement.antt =====
-- The route counter of route_refs.go refines a relation of ownership, over every sequence of calls.
use vpn_pack.Common.{
  ℕ, ◌≡◌, ◌≢◌, ◌↔◌, refl, ◌∙◌, sym, String, Bool, true, false, ◌&&◌, List, [], ◌∷◌, arith, length,
  ◌==◌, nat_eq, string_eq, if◌then◌else◌,
}
use vpn_pack.Common.Int.{ℤ}
use vpn_pack.Net.{NetText}
use vpn_pack.Wgs2s.RouteRefs.{
  RouteKey, RouteRefs, key_eq, new_route_refs, owners_of, has_owner, route_key, add, owns, remove,
}
use vpn_pack.Wgs2s.RouteRefs.Laws.{
  IsValid, owned, owned-add_key, add_key-IsValid, add_key-first, owned-remove_key,
  remove_key-IsValid, remove_key-last,
}

-- A call of the counter: a prefix, a tunnel, its interface's index for `add`, and a metric.
pub data Call : Type 0 where
  call_add : String → String → ℕ → ℤ → Call
  call_remove : String → String → ℤ → Call

-- Which tunnels own which routes.
abbrev pub Ownership : Type 0
Ownership = RouteKey → String → Bool

module _ (net : NetText) where
  abbrev pub exec : Call → RouteRefs → RouteRefs
  exec (call_add cidr id idx metric) rc = (add net cidr id idx metric rc).1
  exec (call_remove cidr id metric) rc = (remove net cidr id metric rc).1

  -- The calls, the last one first.
  unfoldable pub run_calls : List Call → RouteRefs
  run_calls [] = new_route_refs
  run_calls (c ∷ cs) = exec c (run_calls cs)

  -- What the calls should do: `add` relates a pair, `remove` unrelates it.
  abbrev pub effect : Call → Ownership → Ownership
  effect (call_add cidr id idx metric) own k i =
      if k == route_key net cidr metric && id == i then true else own k i
  effect (call_remove cidr id metric) own k i =
      if k == route_key net cidr metric && id == i then false else own k i

  unfoldable pub owners_after : List Call → Ownership
  owners_after [] k i = false
  owners_after (c ∷ cs) k i = effect c (owners_after cs) k i

  run_calls-IsValid : (cs : List Call) → IsValid (run_calls cs)
  unfolding run_calls new_route_refs add remove
  run_calls-IsValid [] = λ k. tt
  run_calls-IsValid (call_add cidr id idx metric ∷ cs) =
      add_key-IsValid (route_key net cidr metric) id idx (run_calls cs) (run_calls-IsValid cs)
  run_calls-IsValid (call_remove cidr id metric ∷ cs) =
      remove_key-IsValid (route_key net cidr metric) id (run_calls cs) (run_calls-IsValid cs)

  owned-run_calls :
      (cs : List Call) (k : RouteKey) (i : String) → owned k i (run_calls cs) ≡ owners_after cs k i
  unfolding run_calls owners_after new_route_refs add remove owners_of has_owner
  owned-run_calls [] k i = refl
  owned-run_calls (call_add cidr id idx metric ∷ cs) k i = ground (
    arith,
    owned-add_key (route_key net cidr metric) id idx (run_calls cs) k i,
    owned-run_calls cs k i,
  )
  owned-run_calls (call_remove cidr id metric ∷ cs) k i = ground (
    arith,
    owned-remove_key (route_key net cidr metric) id (run_calls cs) (run_calls-IsValid cs) k i,
    owned-run_calls cs k i,
  )

  -- After any sequence of `add` and `remove` calls, `owns` answers what the relation of ownership
  -- says that the calls leave: each `add` relates its route and tunnel, each `remove` unrelates
  -- them, and no other pair is touched.
  pub owns-run_calls :
      (cs : List Call) (cidr id : String) (metric : ℤ)
      → owns net cidr id metric (run_calls cs) ≡ owners_after cs (route_key net cidr metric) id
  unfolding owns
  owns-run_calls cs cidr id metric = owned-run_calls cs (route_key net cidr metric) id

  -- After any sequence of calls, `add` answers true exactly when no other tunnel owns the route.
  pub add_first :
      (cs : List Call) (cidr id : String) (idx : ℕ) (metric : ℤ)
      → ((add net cidr id idx metric (run_calls cs)).0 ≡ true)
        ↔ ((j : String) → j ≢ id → owners_after cs (route_key net cidr metric) j ≡ false)
  unfolding add
  add_first cs cidr id idx metric =
      let k = route_key net cidr metric in
      let first = add_key-first k id idx (run_calls cs) (run_calls-IsValid cs) in
      (
        λ h j ne. sym (owned-run_calls cs k j) ∙ first.0 h j ne,
        λ alone. first.1 (λ j ne. owned-run_calls cs k j ∙ alone j ne),
      )

  -- After any sequence of calls, `remove` answers no remaining owner exactly when no other tunnel
  -- owns the route.
  pub remove_last :
      (cs : List Call) (cidr id : String) (metric : ℤ)
      → ((length (remove net cidr id metric (run_calls cs)).0 == 0) ≡ true)
        ↔ ((j : String) → j ≢ id → owners_after cs (route_key net cidr metric) j ≡ false)
  unfolding remove
  remove_last cs cidr id metric =
      let k = route_key net cidr metric in
      let last = remove_key-last k id (run_calls cs) (run_calls-IsValid cs) in
      (
        λ h j ne. sym (owned-run_calls cs k j) ∙ last.0 h j ne,
        λ alone. last.1 (λ j ne. owned-run_calls cs k j ∙ alone j ne),
      )
