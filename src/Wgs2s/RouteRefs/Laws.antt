-- ===== src/Wgs2s/RouteRefs/Laws.antt =====
-- The route counter against what it promises: a relation between routes and the tunnels that own
-- them, which `add` and `remove` change at one pair.
use mathlib.Core.Path.{subst}
use vpn_pack.Common.{
  ℕ, ◌≡◌, ◌≢◌, ◌↔◌, inl, inr, refl, sym, ◌∙◌, String, Bool, true, false, ◌&&◌, Option, none, some,
  List, [], ◌∷◌, ◌++◌, arith, length, ◌==◌, nat_eq, string_eq, if◌then◌else◌, Option-cases,
}
use vpn_pack.Common.Map.{lookup, insert, erase, lookup-insert, lookup-erase}
use vpn_pack.Wgs2s.RouteRefs.{
  RouteOwner, RouteKey, RouteRefs, key_eq, owners_of, has_owner, update_owner, drop_owner, add_key,
  remove_key,
}
use vpn_pack.Wgs2s.RouteRefs.Owners.{
  NodupOwners, update_owner-Updated, update_owner-some, update_owner-none, Dropped,
  drop_owner-Dropped, has_owner-append, snoc-NodupOwners, sole_owner,
}

-- An entry of the map is never empty, and lists no tunnel twice.
abbrev pub WfEntry : Option (List RouteOwner) → Type 0
WfEntry none = Unit
WfEntry (some []) = ⊥
WfEntry (some (o ∷ os)) = NodupOwners (o ∷ os)

abbrev pub IsValid : RouteRefs → Type 0
IsValid rc = (k : RouteKey) → WfEntry (lookup k rc)

abbrev pub owned : RouteKey → String → RouteRefs → Bool
owned k id rc = has_owner id (owners_of k rc)

owners_of-insert :
    (j k : RouteKey) (os : List RouteOwner) (rc : RouteRefs)
    → owners_of j (insert k os rc) ≡ (if j == k then os else owners_of j rc)
unfolding owners_of
owners_of-insert j k os rc = ground (arith, lookup-insert j k os rc)

owners_of-erase :
    (j k : RouteKey) (rc : RouteRefs)
    → owners_of j (erase k rc) ≡ (if j == k then [] else owners_of j rc)
unfolding owners_of
owners_of-erase j k rc = ground (arith, lookup-erase j k rc)

owners_of-NodupOwners : (k : RouteKey) (rc : RouteRefs) → IsValid rc → NodupOwners (owners_of k rc)
unfolding owners_of
owners_of-NodupOwners k rc v = ground (arith, v k)

WfEntry-some :
    (id : String) (os : List RouteOwner)
    → has_owner id os ≡ true
    → NodupOwners os
    → WfEntry (some os)
unfolding has_owner
WfEntry-some id [] h u = cc
WfEntry-some id (o ∷ os) h u = u

insert-IsValid :
    (k : RouteKey) (id : String) (os : List RouteOwner) (rc : RouteRefs)
    → has_owner id os ≡ true
    → NodupOwners os
    → IsValid rc
    → IsValid (insert k os rc)
insert-IsValid k id os rc h u v j =
    ground (arith, lookup-insert j k os rc, WfEntry-some id os h u, v j)

no_owner :
    (os : List RouteOwner) → ((length os == 0) ≡ true) ↔ ((j : String) → has_owner j os ≡ false)
unfolding has_owner nat_eq
no_owner [] = (λ _ j. refl, λ _. refl)
no_owner (o ∷ os) = (λ e. ground arith, λ alone. ground (arith, alone o.tunnel_id))

module _ (k : RouteKey) (id : String) (idx : ℕ) (rc : RouteRefs) where
  -- What `add` leaves at any route `j`, in each of its two ways.
  owners_of-add_key_known :
      (j : RouteKey) {us : List RouteOwner}
      → update_owner id idx (owners_of k rc) ≡ some us
      → owners_of j (add_key k id idx rc).1 ≡ (if j == k then us else owners_of j rc)
  unfolding add_key
  owners_of-add_key_known j {us} e = rw (e, add_key) (owners_of-insert j k us rc)

  owners_of-add_key_new :
      (j : RouteKey)
      → update_owner id idx (owners_of k rc) ≡ none
      → owners_of j (add_key k id idx rc).1 ≡ (
          if j == k
          then owners_of k rc ++ (record { tunnel_id = id; if_index = idx } ∷ [])
          else owners_of j rc)
  unfolding add_key
  owners_of-add_key_new j e = rw (e, add_key) (owners_of-insert j k _ rc)

  pub owned-add_key :
      (j : RouteKey) (i : String)
      → owned j i (add_key k id idx rc).1 ≡ (if j == k && id == i then true else owned j i rc)
  unfolding has_owner
  owned-add_key j i = elim (Option-cases (update_owner id idx (owners_of k rc))) [
    | inr (us, e) ↦
        ground (arith, owners_of-add_key_known j e, update_owner-Updated id i idx (owners_of k rc))
    | inl e ↦ ground (
      arith,
      owners_of-add_key_new j e,
      update_owner-Updated id i idx (owners_of k rc),
      has_owner-append i (owners_of k rc) (record { tunnel_id = id; if_index = idx } ∷ []),
    )
  ]

  pub add_key-IsValid : IsValid rc → IsValid (add_key k id idx rc).1
  unfolding add_key has_owner
  add_key-IsValid v =
      let nodup = owners_of-NodupOwners k rc v in
      elim (Option-cases (update_owner id idx (owners_of k rc))) [
        | inr (us, e) ↦
            let (known, same, _, kept) = update_owner-some id id idx (owners_of k rc) e in
            rw (e, add_key) (insert-IsValid k id us rc (same ∙ known) (kept nodup) v)
        | inl e ↦
            let o : RouteOwner = record { tunnel_id = id; if_index = idx } in
            rw (e, add_key)
              (insert-IsValid k id (owners_of k rc ++ (o ∷ [])) rc
                (ground (arith, has_owner-append id (owners_of k rc) (o ∷ [])))
                (snoc-NodupOwners o (owners_of k rc) nodup
                  (update_owner-none id idx (owners_of k rc) e))
                v)
      ]

  -- The answer of `add`: whether no other tunnel owns the route.
  pub add_key-first :
      IsValid rc → ((add_key k id idx rc).0 ≡ true) ↔ ((j : String) → j ≢ id → owned k j rc ≡ false)
  unfolding add_key
  add_key-first v = elim (Option-cases (update_owner id idx (owners_of k rc))) [
    | inr (us, e) ↦
        let (known, same, _, kept) = update_owner-some id id idx (owners_of k rc) e in
        let seen : (j : String) → has_owner j us ≡ owned k j rc =
          λ j. (update_owner-some id j idx (owners_of k rc) e).1 in
        let sole = sole_owner id us (kept (owners_of-NodupOwners k rc v)) (same ∙ known) in
        rw (e, add_key)
          (λ h j ne. sym (seen j) ∙ sole.0 h j ne, λ alone. sole.1 (λ j ne. seen j ∙ alone j ne))
    | inl e ↦
        let new = update_owner-none id idx (owners_of k rc) e in
        let none_has = no_owner (owners_of k rc) in
        rw (e, add_key)
          (
            λ h j _. none_has.0 h j,
            λ alone.
                none_has.1
                  (λ j. elim (string_eq.dec j id) [ yes p ↦ rw p new | no ne ↦ alone j ne ]),
          )
  ]

module _ (k : RouteKey) (id : String) (rc : RouteRefs) (v : IsValid rc) where
  gone : Dropped id id (owners_of k rc) (drop_owner id (owners_of k rc))
  gone = drop_owner-Dropped id id (owners_of k rc) (owners_of-NodupOwners k rc v)

  -- What `remove` leaves at any route: its answer at `k`, and elsewhere what there was.
  pub owners_of-remove_key :
      (j : RouteKey)
      → owners_of j (remove_key k id rc).1
        ≡ (if j == k then (remove_key k id rc).0 else owners_of j rc)
  unfolding remove_key
  owners_of-remove_key j = elim (Option-cases (drop_owner id (owners_of k rc))) [
    | inl e ↦ rw (e, remove_key) (ground arith)
    | inr ([], e) ↦ rw (e, remove_key) (owners_of-erase j k rc)
    | inr (r ∷ rs, e) ↦ rw (e, remove_key) (owners_of-insert j k (r ∷ rs) rc)
  ]

  answer :
      (i : String) → has_owner i (remove_key k id rc).0 ≡ (if id == i then false else owned k i rc)
  unfolding remove_key has_owner
  answer i = ground (arith, drop_owner-Dropped id i (owners_of k rc) (owners_of-NodupOwners k rc v))

  pub owned-remove_key :
      (j : RouteKey) (i : String)
      → owned j i (remove_key k id rc).1 ≡ (if j == k && id == i then false else owned j i rc)
  owned-remove_key j i = ground (arith, owners_of-remove_key j, answer i)

  pub remove_key-IsValid : IsValid (remove_key k id rc).1
  unfolding remove_key
  remove_key-IsValid j = elim (Option-cases (drop_owner id (owners_of k rc))) [
    | inl e ↦ rw (e, remove_key) (v j)
    | inr ([], e) ↦ rw (e, remove_key) (ground (arith, lookup-erase j k rc, v j))
    | inr (r ∷ rs, e) ↦
        rw (e, remove_key)
          (ground (
            arith,
            lookup-insert j k (r ∷ rs) rc,
            v j,
            subst (Dropped id id (owners_of k rc)) e gone,
          ))
  ]

  -- The answer of `remove`: empty exactly when no other tunnel owns the route.
  pub remove_key-last :
      ((length (remove_key k id rc).0 == 0) ≡ true) ↔ ((j : String) → j ≢ id → owned k j rc ≡ false)
  remove_key-last =
      let none_has = no_owner (remove_key k id rc).0 in
      (
        λ h j ne. ground (arith, none_has.0 h j, answer j),
        λ alone. none_has.1 (λ j. elim (string_eq.dec j id) [
          | yes p ↦ ground (arith, answer j)
          | no ne ↦ ground (arith, answer j, alone j ne)
        ]),
      )
