-- ===== src/Wgs2s/Routes/Claims.antt =====
-- Which prefixes a claim of routes comes to, by the answers of the kernel.
use mathlib.Core.Path.{subst}
use vpn_pack.Common.{
  ℕ, ◌≡◌, refl, sym, inl, inr, String, Bool, true, false, not, ◌||◌, List, [], ◌∷◌, ⊤, Error, wrap,
  eexist, is_errno, Result, ok, err, arith, Result-cases, Answer-cases, Bool-cases,
}
use vpn_pack.Common.Int.{ℤ}
use vpn_pack.Wgs2s.Env.{Env, State, RouteMessage}
use vpn_pack.Wgs2s.RouteRefs.{RouteRefs, add}
use vpn_pack.Wgs2s.Routes.{build_route_message, unregister_routes, claim_one}

module _ (E : Env) (id : String) (metric : ℤ) (if_index : ℕ) where
  -- The counter once the prefix is registered, and whether no other tunnel owned its route.
  abbrev pub registered_in : String → State E.World → RouteRefs
  registered_in cidr s = (add E.net cidr id if_index metric s.refs).1

  abbrev pub first_in : String → State E.World → Bool
  first_in cidr s = (add E.net cidr id if_index metric s.refs).0

  -- What the kernel may answer to a route: that it has it now, that it had it before, or, where
  -- another tunnel owns the route as well, anything.
  abbrev pub tolerated : Bool → Result ⊤ → Bool
  tolerated first (ok _) = true
  tolerated first (err e) = not first || is_errno eexist e

  -- Prefixes are registered and their routes tolerated, from one state to another.
  pub data Passes : List String → State E.World → State E.World → Type 0 where
    all_passed : {s : State E.World} → Passes [] s s
    passed :
        {cidr : String} {cidrs : List String} {s t : State E.World} {msg : RouteMessage}
        {r : Result ⊤} {w : E.World}
        → build_route_message E.net cidr if_index metric ≡ ok msg
        → E.route_add msg s.world ≡ (r, w)
        → tolerated (first_in cidr s) r ≡ true
        → Passes cidrs (record s { refs = registered_in cidr s; world = w }) t
        → Passes (cidr ∷ cidrs) s t

  -- A prefix is refused, which leaves the world, since its route cannot be built or the kernel
  -- does not take it.
  pub data Refused : String → State E.World → E.World → Error → Type 0 where
    unbuilt :
        {cidr : String} {s : State E.World} {e : Error}
        → build_route_message E.net cidr if_index metric ≡ err e
        → Refused cidr s s.world e
    not_taken :
        {cidr : String} {s : State E.World} {msg : RouteMessage} {w : E.World} {e : Error}
        → build_route_message E.net cidr if_index metric ≡ ok msg
        → E.route_add msg s.world ≡ (err e, w)
        → tolerated (first_in cidr s) (err e) ≡ false
        → Refused cidr s w (wrap "add route" e)

  -- How one round ends.
  abbrev pub Round : List String → String → State E.World → Result ⊤ × State E.World → Type 0
  Round known cidr s (ok _, t) =
      (msg : RouteMessage) × (r : Result ⊤) × (w : E.World) × (build_route_message E.net cidr
          if_index metric
        ≡ ok msg)
      × (E.route_add msg s.world ≡ (r, w))
      × (tolerated (first_in cidr s) r ≡ true)
      × (t ≡ record s { refs = registered_in cidr s; world = w })
  Round known cidr s (err e, t) =
      (Refused cidr s t.world e)
      × (t.refs ≡ unregister_routes E id known metric (registered_in cidr s))

  pub claim_one-Round :
      (known : List String) (cidr : String) (s : State E.World)
      → Round known cidr s (claim_one E id if_index known cidr metric s)
  unfolding claim_one
  claim_one-Round known cidr s =
      let rc = registered_in cidr s in
      let undone = unregister_routes E id known metric rc in
      elim (Answer-cases (build_route_message E.net cidr if_index metric)) [
        | inr (e, p) ↦
            let end : claim_one E id if_index known cidr metric s
                ≡ (err e, record s { refs = undone }) =
              ground arith in
            subst (Round known cidr s) (sym end) (unbuilt p, refl)
        | inl (msg, p) ↦ elim (Result-cases (E.route_add msg s.world)) [
          | inl (a, w, q) ↦
              let t : State E.World = record s { refs = rc; world = w } in
              let end : claim_one E id if_index known cidr metric s ≡ (ok tt, t) = ground arith in
              subst (Round known cidr s) (sym end) (msg, ok a, w, p, q, refl, refl)
          | inr (e, w, q) ↦ elim (Bool-cases (tolerated (first_in cidr s) (err e))) [
            | inl fine ↦
                let t : State E.World = record s { refs = rc; world = w } in
                let end : claim_one E id if_index known cidr metric s ≡ (ok tt, t) = ground arith in
                subst (Round known cidr s) (sym end) (msg, err e, w, p, q, fine, refl)
            | inr bad ↦
                let t : State E.World = record s { refs = undone; world = w } in
                let end : claim_one E id if_index known cidr metric s
                    ≡ (err (wrap "add route" e), t) =
                  ground arith in
                subst (Round known cidr s) (sym end) (not_taken p q bad, refl)
          ]
        ]
      ]
