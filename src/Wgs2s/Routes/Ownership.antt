-- ===== src/Wgs2s/Routes/Ownership.antt =====
-- What claiming and releasing a tunnel's routes leaves in the route counter.
use mathlib.Core.List.{append_assoc}
use mathlib.Core.Path.{subst}
use vpn_pack.Common.{
  ℕ, ◌≡◌, refl, sym, ap, inl, inr, String, Bool, true, false, ◌&&◌, ◌||◌, List, [], ◌∷◌, ◌++◌, ⊤,
  Result, ok, err, arith, ◌==◌, string_eq, if◌then◌else◌, Result-cases, >>=-ok, >>=-err,
}
use vpn_pack.Common.Int.{ℤ}
use vpn_pack.Net.{NetText}
use vpn_pack.Wgs2s.Env.{Env, State, RouteMessage}
use vpn_pack.Wgs2s.RouteRefs.{RouteKey, RouteRefs, key_eq, route_key, add, remove}
use vpn_pack.Wgs2s.RouteRefs.Laws.{
  IsValid, owned, owned-add_key, add_key-IsValid, owned-remove_key, remove_key-IsValid,
}
use vpn_pack.Wgs2s.Routes.Claims.{
  Passes, all_passed, passed, Refused, Round, claim_one-Round, tolerated, first_in, registered_in,
}
use vpn_pack.Wgs2s.Routes.{
  build_route_message, unregister_routes, claim_one, claim_from, claim_routes, release_routes,
}

-- Whether one of the prefixes has the route `k` at the metric.
unfoldable pub routed : NetText → ℤ → List String → RouteKey → Bool
routed net metric [] k = false
routed net metric (cidr ∷ cidrs) k = k == route_key net cidr metric || routed net metric cidrs k

pub routed-append :
    (net : NetText) (metric : ℤ) (xs ys : List String) (k : RouteKey)
    → routed net metric (xs ++ ys) k ≡ (routed net metric xs k || routed net metric ys k)
unfolding routed
routed-append net metric [] ys k = refl
routed-append net metric (x ∷ xs) ys k = ground (arith, routed-append net metric xs ys k)

module _ (E : Env) (id : String) (metric : ℤ) where
  -- The tunnel owns the routes of these prefixes, or owns none of them; no other pair differs.
  abbrev pub Owning : Bool → List String → RouteRefs → RouteRefs → Type 0
  Owning b cidrs before after =
      (k : RouteKey) (i : String)
      → owned k i after ≡ (if id == i && routed E.net metric cidrs k then b else owned k i before)

  unregister-Owning :
      (cidrs : List String) (rc : RouteRefs)
      → IsValid rc
      → IsValid (unregister_routes E id cidrs metric rc)
        × Owning false cidrs rc (unregister_routes E id cidrs metric rc)
  unfolding unregister_routes remove routed
  unregister-Owning [] rc v = (v, λ k i. ground arith)
  unregister-Owning (cidr ∷ cidrs) rc v =
      let key = route_key E.net cidr metric in
      let v' = remove_key-IsValid key id rc v in
      let (w, own) = unregister-Owning cidrs (remove E.net cidr id metric rc).1 v' in
      (w, λ k i. ground (arith, own k i, owned-remove_key key id rc v k i))

  module _ (if_index : ℕ) where
    -- Releasing routes leaves the tunnel the owner of none of them, changes no other pair of a
    -- route and a tunnel, and keeps the counter well formed.
    pub release_routes-Owning :
        (cidrs : List String) (s : State E.World)
        → IsValid s.refs
        → IsValid (release_routes E id if_index cidrs metric s).refs
          × Owning false cidrs s.refs (release_routes E id if_index cidrs metric s).refs
    unfolding release_routes remove routed
    release_routes-Owning [] s v = (v, λ k i. ground arith)
    release_routes-Owning (cidr ∷ cidrs) s v =
        let key = route_key E.net cidr metric in
        let v' = remove_key-IsValid key id s.refs v in
        let (w, own) = release_routes-Owning cidrs _ v' in
        (w, λ k i. ground (arith, own k i, owned-remove_key key id s.refs v k i))

    -- How `claimRoutes` ends, by its answer: it owns every route, or it has given up those up to
    -- the one that was refused.
    abbrev pub Claimed :
        List String → List String → State E.World → Result ⊤ × State E.World → Type 0
    Claimed registered cidrs s (ok _, t) =
        IsValid t.refs × Owning true cidrs s.refs t.refs × Passes E id metric if_index cidrs s t
    Claimed registered cidrs s (err e, t) =
        (front : List String) × (cidr : String) × (left : List String) × (cidrs
          ≡ front ++ (cidr ∷ left))
        × (u : State E.World) × Passes E id metric if_index front s u
        × Refused E id metric if_index cidr u t.world e
        × IsValid t.refs
        × Owning false (registered ++ (front ++ (cidr ∷ []))) s.refs t.refs

    -- A prefix that is registered, before what the later rounds do.
    Owning-cons :
        (cidr : String) (cidrs : List String) (rc after : RouteRefs)
        → Owning true cidrs (add E.net cidr id if_index metric rc).1 after
        → Owning true (cidr ∷ cidrs) rc after
    unfolding routed add
    Owning-cons cidr cidrs rc after own k i =
        ground (arith, own k i, owned-add_key (route_key E.net cidr metric) id if_index rc k i)

    -- Giving up prefixes, one of which was registered last.
    Owning-undo :
        (known : List String) (cidr : String) (rc after : RouteRefs)
        → ((k : RouteKey)
            → routed E.net metric known k ≡ false
            → (k == route_key E.net cidr metric) ≡ false)
        → Owning false known (add E.net cidr id if_index metric rc).1 after
        → Owning false known rc after
    unfolding add
    Owning-undo known cidr rc after within own k i =
        ground
          (arith, own k i, within k, owned-add_key (route_key E.net cidr metric) id if_index rc k i)

    added-IsValid :
        (cidr : String) (rc : RouteRefs)
        → IsValid rc
        → IsValid (add E.net cidr id if_index metric rc).1
    unfolding add
    added-IsValid cidr rc v = add_key-IsValid (route_key E.net cidr metric) id if_index rc v

    routed-within :
        (registered : List String) (cidr : String) (tried : List String) (k : RouteKey)
        → routed E.net metric (registered ++ (cidr ∷ tried)) k ≡ false
        → (k == route_key E.net cidr metric) ≡ false
    unfolding routed
    routed-within registered cidr tried k h =
        ground (arith, routed-append E.net metric registered (cidr ∷ tried) k)

    Claimed-next :
        (registered : List String) (cidr : String) (cidrs : List String) (s t : State E.World)
        → (msg : RouteMessage) (r : Result ⊤) (w : E.World)
        → build_route_message E.net cidr if_index metric ≡ ok msg
        → E.route_add msg s.world ≡ (r, w)
        → tolerated E id metric if_index (first_in E id metric if_index cidr s) r ≡ true
        → t ≡ record s { refs = registered_in E id metric if_index cidr s; world = w }
        → (p : Result ⊤ × State E.World) → Claimed (registered ++ (cidr ∷ [])) cidrs t p
        → Claimed registered (cidr ∷ cidrs) s p
    Claimed-next registered cidr cidrs s t msg r w built asked fine same (ok _, v)
          (valid, own, all) =
        let refs = ap (λ (u : State E.World). u.refs) same in
        (
          valid,
          Owning-cons cidr cidrs s.refs v.refs (subst (λ rc. Owning true cidrs rc v.refs) refs own),
          passed built asked fine (subst (λ u. Passes E id metric if_index cidrs u v) same all),
        )
    Claimed-next registered cidr cidrs s t msg r w built asked fine same (err e, v)
          (front, last, left, split, u, all, refused, valid, own) =
        let refs = ap (λ (x : State E.World). x.refs) same in
        let tried = front ++ (last ∷ []) in
        let whole : Owning false (registered ++ (cidr ∷ tried)) t.refs v.refs =
          rw append_assoc at own in
        (
          cidr ∷ front,
          last,
          left,
          ap (λ (xs : List String). cidr ∷ xs) split,
          u,
          passed built asked fine (subst (λ x. Passes E id metric if_index front x u) same all),
          refused,
          valid,
          Owning-undo (registered ++ (cidr ∷ tried)) cidr s.refs v.refs
              (routed-within registered cidr tried)
              (subst (λ rc. Owning false (registered ++ (cidr ∷ tried)) rc v.refs) refs whole),
        )

    claim_from-Claimed :
        (registered cidrs : List String) (s : State E.World)
        → IsValid s.refs
        → Claimed registered cidrs s (claim_from E id if_index registered cidrs metric s)
    unfolding claim_from routed
    claim_from-Claimed registered [] s v = (v, λ k i. ground arith, all_passed)
    claim_from-Claimed registered (cidr ∷ cidrs) s v =
        let known = registered ++ (cidr ∷ []) in
        let one = claim_one E id if_index known cidr metric in
        let go = claim_from E id if_index known cidrs metric in
        let w = added-IsValid cidr s.refs v in
        let round = claim_one-Round E id metric if_index known cidr s in
        elim (Result-cases (one s)) [
          | inl (a, t, q) ↦
              let (msg, r, x, built, asked, fine, same) =
                subst (Round E id metric if_index known cidr s) q round in
              let refs = ap (λ (u : State E.World). u.refs) same in
              let ih = claim_from-Claimed known cidrs t (subst IsValid (sym refs) w) in
              subst (Claimed registered (cidr ∷ cidrs) s) (sym (>>=-ok one (λ _. go) a q))
                (Claimed-next registered cidr cidrs s t msg r x built asked fine same (go t) ih)
          | inr (e, t, q) ↦
              let (refused, refs) = subst (Round E id metric if_index known cidr s) q round in
              let (v', own) = unregister-Owning known _ w in
              subst (Claimed registered (cidr ∷ cidrs) s) (sym (>>=-err one (λ _. go) e q)) (
                [],
                cidr,
                cidrs,
                refl,
                s,
                all_passed,
                refused,
                subst IsValid (sym refs) v',
                subst (Owning false known s.refs) (sym refs)
                    (Owning-undo known cidr s.refs _ (routed-within registered cidr []) own),
              )
        ]

    -- Claiming a tunnel's routes either succeeds, and the kernel was asked for the route of each
    -- prefix in order and took it, had it, or was let refuse it where another tunnel owns the route
    -- as well; then the tunnel owns all of them. Or it fails, at the first prefix whose route
    -- cannot be built or that the kernel refuses and no other tunnel owns, with that error; then
    -- nothing is asked of the kernel any more, and the tunnel owns none of the prefixes up to and
    -- with that one, whether or not it owned them before. Either way no other pair of a route and
    -- a tunnel changes, and the counter stays well formed.
    pub claim_routes-Claimed :
        (cidrs : List String) (s : State E.World)
        → IsValid s.refs
        → Claimed [] cidrs s (claim_routes E id if_index cidrs metric s)
    unfolding claim_routes
    claim_routes-Claimed cidrs s v = claim_from-Claimed [] cidrs s v
