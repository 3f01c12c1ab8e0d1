-- ===== src/Wgs2s/RouteRefs/Owners.antt =====
-- The loops over the owners of one route.
use mathlib.Core.Path.{subst}
use vpn_pack.Common.{
  ℕ, ◌≡◌, ◌≢◌, ◌↔◌, refl, String, true, false, ◌||◌, Option, none, some, List, [], ◌∷◌, ◌++◌, arith,
  length, ◌==◌, nat_eq, string_eq, if◌then◌else◌,
}
use vpn_pack.Wgs2s.RouteRefs.{RouteOwner, has_owner, update_owner, drop_owner}

-- No tunnel is listed twice.
abbrev pub NodupOwners : List RouteOwner → Type 0
NodupOwners [] = Unit
NodupOwners (o ∷ os) = (has_owner o.tunnel_id os ≡ false) × NodupOwners os

-- What a write of `id`'s index leaves of the owners, as `j` sees them.
abbrev pub Updated : String → String → List RouteOwner → Option (List RouteOwner) → Type 0
Updated id j os none = has_owner id os ≡ false
Updated id j os (some us) =
    (has_owner id os ≡ true)
    × (has_owner j us ≡ has_owner j os)
    × (length us ≡ length os)
    × (NodupOwners os → NodupOwners us)

pub update_owner-Updated :
    (id j : String) (idx : ℕ) (os : List RouteOwner) → Updated id j os (update_owner id idx os)
unfolding update_owner has_owner
update_owner-Updated id j idx [] = refl
update_owner-Updated id j idx (o ∷ os) =
    ground (arith, update_owner-Updated id j idx os, update_owner-Updated id o.tunnel_id idx os)

pub update_owner-some :
    (id j : String) (idx : ℕ) (os : List RouteOwner) {us : List RouteOwner}
    → update_owner id idx os ≡ some us
    → Updated id j os (some us)
update_owner-some id j idx os e = subst (Updated id j os) e (update_owner-Updated id j idx os)

pub update_owner-none :
    (id : String) (idx : ℕ) (os : List RouteOwner)
    → update_owner id idx os ≡ none
    → has_owner id os ≡ false
update_owner-none id idx os e = subst (Updated id id os) e (update_owner-Updated id id idx os)

-- What a removal of `id` leaves of owners that list no tunnel twice.
abbrev pub Dropped : String → String → List RouteOwner → Option (List RouteOwner) → Type 0
Dropped id j os none = has_owner id os ≡ false
Dropped id j os (some us) =
    (has_owner id os ≡ true)
    × (has_owner j us ≡ (if id == j then false else has_owner j os))
    × NodupOwners us

pub drop_owner-Dropped :
    (id j : String) (os : List RouteOwner) → NodupOwners os → Dropped id j os (drop_owner id os)
unfolding drop_owner has_owner
drop_owner-Dropped id j [] u = refl
drop_owner-Dropped id j (o ∷ os) u =
    ground (arith, drop_owner-Dropped id j os u.1, drop_owner-Dropped id o.tunnel_id os u.1)

pub has_owner-append :
    (j : String) (os us : List RouteOwner)
    → has_owner j (os ++ us) ≡ (has_owner j os || has_owner j us)
unfolding has_owner
has_owner-append j [] us = refl
has_owner-append j (o ∷ os) us = ground (arith, has_owner-append j os us)

pub snoc-NodupOwners :
    (o : RouteOwner) (os : List RouteOwner)
    → NodupOwners os
    → has_owner o.tunnel_id os ≡ false
    → NodupOwners (os ++ (o ∷ []))
unfolding has_owner
snoc-NodupOwners o [] u h = (refl, tt)
snoc-NodupOwners o (p ∷ os) u h =
    ground (arith, snoc-NodupOwners o os u.1, has_owner-append p.tunnel_id os (o ∷ []))

-- With no tunnel listed twice, `id` is the only owner of a list of length 1 that has it.
pub sole_owner :
    (id : String) (os : List RouteOwner)
    → NodupOwners os
    → has_owner id os ≡ true
    → ((length os == 1) ≡ true) ↔ ((j : String) → j ≢ id → has_owner j os ≡ false)
unfolding has_owner nat_eq
sole_owner id [] u h = cc
sole_owner id (o ∷ []) u h = (λ _ j ne. ground arith, λ _. refl)
sole_owner id (o ∷ p ∷ os) u h =
    (λ e. ground arith, λ alone. ground (arith, alone o.tunnel_id, alone p.tunnel_id))
